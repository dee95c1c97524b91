-- ===== src/Libc/Strings/Examples.antt =====
-- The theorems on libc/string/string.c at a memory that holds the string "ab" twice, and tests of
-- the searches.
use zurich_os.Base.{ℕ, zero, suc, ◌+◌, ◌<◌, ◌≡◌, ◌≢◌, refl, none, some, [], ◌∷◌, get_or, pos, arith}
use zurich_os.Libc.Strings.{Bytes, memmove, memcmp, strlen, strcmp, strchr, strrchr, strstr}
use zurich_os.Libc.Strings.Copy.{Moved, memmove-Moved}
use zurich_os.Libc.Strings.Ends.{Terminated, strlen_lem}
use zurich_os.Libc.Strings.Compare.{Compared, strcmp-Compared}

abbrev text : Bytes
text p = get_or (97 ∷ 98 ∷ 0 ∷ 97 ∷ 98 ∷ 0 ∷ []) p 0

ab_at : (s : ℕ) → text (s + 0) ≡ 97 → text (s + 1) ≡ 98 → text (s + 2) ≡ 0 → Terminated text s 2
ab_at s a b z = record { end = z; body = body }
  where
    body : (i : ℕ) → i < 2 → text (s + i) ≢ 0
    body zero lt e = absurd (omega (arith, a, e))
    body (suc zero) lt e = absurd (omega (arith, b, e))
    body (suc (suc i)) lt e = absurd (omega arith)

memmove-Moved_example : Moved 1 0 4 text (memmove 1 0 4 text)
memmove-Moved_example = memmove-Moved 1 0 4 text

strlen_lem_example : strlen 5 3 text ≡ some 2
strlen_lem_example = strlen_lem 5 3 2 text (ab_at 3 refl refl refl) (omega arith)

strcmp-Compared_example : Compared text 0 2 3 2 (strcmp 3 0 3 text)
strcmp-Compared_example =
    strcmp-Compared 3 0 2 3 2 text (ab_at 0 refl refl refl) (ab_at 3 refl refl refl) (omega arith)

finds_second : strchr 9 0 98 text ≡ some (some 1)
unfolding strchr
finds_second = refl

finds_last : strrchr 9 3 97 text ≡ some (some 3)
unfolding strrchr
finds_last = refl

finds_string : strstr 9 1 3 text ≡ some none
unfolding strstr
finds_string = refl

same_bytes : memcmp 0 3 3 text ≡ pos 0
unfolding memcmp
same_bytes = refl
