-- ===== src/Stdio/Errors.antt =====
-- The names and descriptions of the errors: common/include/sysresult.h and
-- common/include/bits/errordef.h.
use xinix.Base.{ℕ, ◌-◌, ◌^◌, Option, none, some, List, ◌==◌, if◌then◌else◌, ascii}

-- The 64-bit word of an error
abbrev pub error : ℕ → ℕ
error code = 2 ^ 64 - code

unfoldable pub sysresult_name : ℕ → Option (List ℕ)
sysresult_name res =
    if res == error 1
    then some (ascii "GENERIC")
    else if res == error 2
    then some (ascii "INSUFFICIENT_MEMORY")
    else if res == error 12
    then some (ascii "INVALID_SYSTEM_FUNCTION")
    else if res == error 32
    then some (ascii "IMAGE_VALIDATION_ERROR")
    else if res == error 36
    then some (ascii "IMAGE_WX_SEG")
    else if res == error 37
    then some (ascii "IMAGE_INVALID_RELOC")
    else if res == error 38
    then some (ascii "UNUSABLE_TSC")
    else if res == error 39
    then some (ascii "ASSERTION_FAILED")
    else none

unfoldable pub sysresult_describe : ℕ → Option (List ℕ)
sysresult_describe res =
    if res == 0
    then some (ascii "Ok")
    else if res == error 1
    then some (ascii "Unknown Error")
    else if res == error 12
    then some (ascii "Invalid system function")
    else if res == error 32
    then some (ascii "Elf Image Not Valid For Target")
    else if res == error 36
    then some (ascii "Elf Image Contains Writeable Text Segment")
    else if res == error 37
    then some (ascii "Unexpected Dynamic Relocation")
    else if res == error 2
    then some (ascii "Insufficient System Memory")
    else if res == error 38
    then some (ascii "Uncalibrated Timestamp Counter")
    else none
