-- ===== src/Libc/Strings.antt =====
-- libc/string/string.c, over a memory of bytes: a pointer is an address, and a null pointer `none`.
-- A loop over a string has no bound in the code; here it runs on fuel, and `none` means that the
-- fuel ran out. Addresses do not wrap.
pub mod Copy
pub mod Ends
pub mod Compare
mod Examples
use zurich_os.Base.{
  ℕ, zero, suc, ◌+◌, ◌%◌, Bool, true, false, ◌&&◌, not, Option, none, some, ltb, ◌==◌,
  if◌then◌else◌, ℤ, pos, sub_ℕ,
}

abbrev pub Bytes : Type 0
Bytes = ℕ → ℕ

unfoldable pub write : Bytes → ℕ → ℕ → Bytes
write m a v p = if p == a then v else m p

-- `while (n--) *d++ = *s++;`
unfoldable pub copy_up : ℕ → ℕ → ℕ → Bytes → Bytes
copy_up zero d s m = m
copy_up (suc n) d s m = copy_up n (d + 1) (s + 1) (write m d (m s))

-- `while (n--) *--d = *--s;`, from the ends.
unfoldable pub copy_down : ℕ → ℕ → ℕ → Bytes → Bytes
copy_down zero d s m = m
copy_down (suc n) d s m = copy_down n d s (write m (d + n) (m (s + n)))

unfoldable pub memcpy : ℕ → ℕ → ℕ → Bytes → Bytes
memcpy dest src n m = copy_up n dest src m

unfoldable pub memmove : ℕ → ℕ → ℕ → Bytes → Bytes
memmove dest src n m = if ltb dest src then copy_up n dest src m else copy_down n dest src m

unfoldable pub memset : ℕ → ℕ → ℕ → Bytes → Bytes
memset s c zero m = m
memset s c (suc n) m = memset (s + 1) c n (write m s (c % 256))

unfoldable pub memcmp : ℕ → ℕ → ℕ → Bytes → ℤ
memcmp s1 s2 zero m = pos 0
memcmp s1 s2 (suc n) m =
    let rest = memcmp (s1 + 1) (s2 + 1) n m in if m s1 == m s2 then rest else sub_ℕ (m s1) (m s2)

unfoldable pub memchr : ℕ → ℕ → ℕ → Bytes → Option ℕ
memchr s c zero m = none
memchr s c (suc n) m = let rest = memchr (s + 1) c n m in if m s == c % 256 then some s else rest

-- The loop of `strlen`, `len` bytes on.
unfoldable pub length_from : ℕ → ℕ → ℕ → Bytes → Option ℕ
length_from zero str len m = none
length_from (suc f) str len m =
    let rest = length_from f str (len + 1) m in if m (str + len) == 0 then some len else rest

unfoldable pub strlen : ℕ → ℕ → Bytes → Option ℕ
unfolding length_from
strlen fuel str m = length_from fuel str 0 m

-- `while ((*d++ = *src++));`
unfoldable pub strcpy : ℕ → ℕ → ℕ → Bytes → Option Bytes
strcpy zero d s m = none
strcpy (suc f) d s m =
    let m' = write m d (m s) in
    let rest = strcpy f (d + 1) (s + 1) m' in if m s == 0 then some m' else rest

-- The loops of `strncpy`: `n` bytes are left, the next has index `i`.
unfoldable pub pad : ℕ → ℕ → ℕ → Bytes → Bytes
pad dest zero i m = m
pad dest (suc n) i m = pad dest n (i + 1) (write m (dest + i) 0)

unfoldable pub copy_string : ℕ → ℕ → ℕ → ℕ → Bytes → Bytes
unfolding pad
copy_string dest src zero i m = m
copy_string dest src (suc n) i m =
    let rest = copy_string dest src n (i + 1) (write m (dest + i) (m (src + i))) in
    if m (src + i) == 0 then pad dest (suc n) i m else rest

unfoldable pub strncpy : ℕ → ℕ → ℕ → Bytes → Bytes
unfolding copy_string
strncpy dest src n m = copy_string dest src n 0 m

unfoldable pub strcmp : ℕ → ℕ → ℕ → Bytes → Option ℤ
strcmp zero s1 s2 m = none
strcmp (suc f) s1 s2 m =
    let rest = strcmp f (s1 + 1) (s2 + 1) m in
    if not (m s1 == 0) && (m s1 == m s2) then rest else some (sub_ℕ (m s1) (m s2))

unfoldable pub strncmp : ℕ → ℕ → ℕ → Bytes → ℤ
strncmp s1 s2 zero m = pos 0
strncmp s1 s2 (suc n) m =
    let rest = strncmp (s1 + 1) (s2 + 1) n m in
    if not (m s1 == 0) && (m s1 == m s2) then rest else sub_ℕ (m s1) (m s2)

-- `while (*d) d++;` and the copy behind it.
unfoldable pub strcat : ℕ → ℕ → ℕ → Bytes → Option Bytes
strcat zero d s m = none
strcat (suc f) d s m =
    let here = strcpy (suc f) d s m in
    let rest = strcat f (d + 1) s m in if m d == 0 then here else rest

-- The outer `none` is for fuel.
unfoldable pub strchr : ℕ → ℕ → ℕ → Bytes → Option (Option ℕ)
strchr zero s c m = none
strchr (suc f) s c m =
    let rest = strchr f (s + 1) c m in
    if m s == 0
    then some (if c == 0 then some s else none)
    else (if m s == c % 256 then some (some s) else rest)

unfoldable pub last_from : ℕ → ℕ → ℕ → Option ℕ → Bytes → Option (Option ℕ)
last_from zero s c last m = none
last_from (suc f) s c last m =
    let rest = last_from f (s + 1) c (if m s == c % 256 then some s else last) m in
    if m s == 0 then some (if c == 0 then some s else last) else rest

unfoldable pub strrchr : ℕ → ℕ → ℕ → Bytes → Option (Option ℕ)
unfolding last_from
strrchr fuel s c m = last_from fuel s c none m

-- The inner loop of `strstr`: whether it ends at the end of the needle.
unfoldable pub matches_at : ℕ → ℕ → ℕ → Bytes → Option Bool
matches_at zero h n m = none
matches_at (suc f) h n m =
    let rest = matches_at f (h + 1) (n + 1) m in
    if not (m h == 0) && (not (m n == 0) && (m h == m n)) then rest else some (m n == 0)

abbrev pub found_or : ℕ → Option Bool → Option (Option ℕ) → Option (Option ℕ)
found_or h none rest = none
found_or h (some true) rest = some (some h)
found_or h (some false) rest = rest

unfoldable pub scan_for : ℕ → ℕ → ℕ → Bytes → Option (Option ℕ)
unfolding matches_at
scan_for zero h n m = none
scan_for (suc f) h n m =
    let rest = found_or h (matches_at (suc f) h n m) (scan_for f (h + 1) n m) in
    if m h == 0 then some none else rest

unfoldable pub strstr : ℕ → ℕ → ℕ → Bytes → Option (Option ℕ)
unfolding scan_for
strstr fuel haystack needle m =
    if m needle == 0 then some (some haystack) else scan_for fuel haystack needle m
