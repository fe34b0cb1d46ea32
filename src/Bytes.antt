-- ===== src/Bytes.antt =====
-- The byte routines of kernel/src/common/memory.c, and the `strnlen` of
-- prekernel/shared/src/memory.c, whose other routines have the same text. Memory is a function from
-- addresses to bytes. A C object does not wrap round the end of the address space, so addresses
-- are added as plain numbers. Where a routine may read past what its caller owns, the
-- memory is a partial function, and `none` is a fault.
pub mod Copy
pub mod Compare
pub mod Strings
mod Examples
use xinix.Base.{ℕ, zero, suc, ◌+◌, ◌^◌, ◌<◌, Bool, Option, none, some, ◌==◌, ltb, if◌then◌else◌, u8}

abbrev pub Memory : Type 0
Memory = ℕ → ℕ

abbrev pub update : Memory → ℕ → ℕ → Memory
update m a v x = if x == a then v else m x

-- `for (i = 0; i < n; i++) pdest[i] = psrc[i];`, with `left` rounds to go
pub copy_up : ℕ → ℕ → ℕ → ℕ → Memory → Memory
copy_up dest src zero i m = m
copy_up dest src (suc left) i m = copy_up dest src left (i + 1) (update m (dest + i) (m (src + i)))

-- `for (i = n; i > 0; i--) pdest[i - 1] = psrc[i - 1];`
pub copy_down : ℕ → ℕ → ℕ → Memory → Memory
copy_down dest src zero m = m
copy_down dest src (suc i) m = copy_down dest src i (update m (dest + i) (m (src + i)))

pub memcpy : ℕ → ℕ → ℕ → Memory → Memory
memcpy dest src n m = copy_up dest src n 0 m

pub memmove : ℕ → ℕ → ℕ → Memory → Memory
memmove dest src n m =
    if ltb dest src
    then copy_up dest src n 0 m
    else if ltb src dest
    then copy_down dest src n m
    else m

set_up : ℕ → ℕ → ℕ → ℕ → Memory → Memory
set_up s c zero i m = m
set_up s c (suc left) i m = set_up s c left (i + 1) (update m (s + i) (u8 c))

unfoldable pub memset : ℕ → ℕ → ℕ → Memory → Memory
unfolding set_up
memset s c n m = set_up s c n 0 m

-- The three results of `memcmp`: -1, 0 and 1.
pub data Sign : Type 0 where
  minus same plus : Sign

compare_from : Memory → ℕ → ℕ → ℕ → ℕ → Sign
compare_from m s1 s2 zero i = same
compare_from m s1 s2 (suc left) i =
    let rest = compare_from m s1 s2 left (i + 1) in
    if m (s1 + i) == m (s2 + i) then rest else if ltb (m (s1 + i)) (m (s2 + i)) then minus else plus

pub memcmp : ℕ → ℕ → ℕ → Memory → Sign
unfolding compare_from
memcmp s1 s2 n m = compare_from m s1 s2 n 0

abbrev pub Mapped : Type 0
Mapped = ℕ → Option ℕ

-- `while (*str++ != 0) result += 1;`, on fuel; `none` is a fault, or that the fuel ran out
pub strlen_from : Mapped → ℕ → ℕ → ℕ → Option ℕ
strlen_from m str zero result = none
strlen_from m str (suc fuel) result =
    let rest = strlen_from m str fuel (result + 1) in
    elim (m (str + result)) [ none ↦ none | some c ↦ if c == 0 then some result else rest ]

-- The address space bounds the length of a text.
pub strlen : Mapped → ℕ → Option ℕ
strlen m str = strlen_from m str (2 ^ 64) 0

-- `while (*str++ != 0 && result < maxlen) result += 1;`: the byte is read before the test.
strnlen_from : Mapped → ℕ → ℕ → ℕ → Option ℕ
strnlen_from m str zero result = elim (m (str + result)) [ none ↦ none | some c ↦ some result ]
strnlen_from m str (suc left) result =
    let rest = strnlen_from m str left (result + 1) in
    elim (m (str + result)) [ none ↦ none | some c ↦ if c == 0 then some result else rest ]

-- The kernel's `strnlen`; the rounds left are `maxlen - result`.
pub strnlen : Mapped → ℕ → ℕ → Option ℕ
unfolding strnlen_from
strnlen m str maxlen = strnlen_from m str maxlen 0

-- `while (len < maxlen && *s++) len++;`
prekernel_strnlen_from : Mapped → ℕ → ℕ → ℕ → Option ℕ
prekernel_strnlen_from m s zero len = some len
prekernel_strnlen_from m s (suc left) len =
    let rest = prekernel_strnlen_from m s left (len + 1) in
    elim (m (s + len)) [ none ↦ none | some c ↦ if c == 0 then some len else rest ]

-- The prekernel's `strnlen`.
pub prekernel_strnlen : Mapped → ℕ → ℕ → Option ℕ
unfolding prekernel_strnlen_from
prekernel_strnlen m s maxlen = prekernel_strnlen_from m s maxlen 0
