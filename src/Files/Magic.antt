-- ===== src/Files/Magic.antt =====
-- What src/files.rs reads off the first bytes of a file, and the text of a digest. A text of ASCII
-- digits is the list of its codes.
use Prim.Native.String.{String}
use argus_ips.Address.{Bytes}
use argus_ips.Base.{
  ℕ, ◌+◌, ◌/◌, ◌%◌, Bool, true, false, ◌&&◌, List, [], ◌∷◌, Option, none, some, length, drop, ltb,
  leb, ◌==◌, if◌then◌else◌,
}

abbrev pub starts_with : Bytes → Bytes → Bool
starts_with bytes [] = true
starts_with [] (x ∷ sig) = false
starts_with (b ∷ bytes) (x ∷ sig) = b == x && starts_with bytes sig

-- `MAGIC`
abbrev magic_table : List (Bytes × String)
magic_table =
    (0x4d ∷ 0x5a ∷ [], "dos/pe-executable")
    ∷ (0x7f ∷ 0x45 ∷ 0x4c ∷ 0x46 ∷ [], "elf-executable")
    ∷ (0xca ∷ 0xfe ∷ 0xba ∷ 0xbe ∷ [], "java-class-or-macho-fat")
    ∷ (0xfe ∷ 0xed ∷ 0xfa ∷ 0xce ∷ [], "mach-o")
    ∷ (0xfe ∷ 0xed ∷ 0xfa ∷ 0xcf ∷ [], "mach-o-64")
    ∷ (0x50 ∷ 0x4b ∷ 0x03 ∷ 0x04 ∷ [], "zip-or-office")
    ∷ (0x52 ∷ 0x61 ∷ 0x72 ∷ 0x21 ∷ 0x1a ∷ 0x07 ∷ [], "rar")
    ∷ (0x37 ∷ 0x7a ∷ 0xbc ∷ 0xaf ∷ 0x27 ∷ 0x1c ∷ [], "7-zip")
    ∷ (0x1f ∷ 0x8b ∷ [], "gzip")
    ∷ (0x42 ∷ 0x5a ∷ 0x68 ∷ [], "bzip2")
    ∷ (0xfd ∷ 0x37 ∷ 0x7a ∷ 0x58 ∷ 0x5a ∷ [], "xz")
    ∷ (0x25 ∷ 0x50 ∷ 0x44 ∷ 0x46 ∷ 0x2d ∷ [], "pdf")
    ∷ (0xd0 ∷ 0xcf ∷ 0x11 ∷ 0xe0 ∷ [], "ole-compound (legacy office)")
    ∷ (0x23 ∷ 0x21 ∷ [], "script-with-shebang")
    ∷ (0x3c ∷ 0x3f ∷ 0x70 ∷ 0x68 ∷ 0x70 ∷ [], "php-source")
    ∷ (0x3c ∷ 0x25 ∷ 0x40 ∷ [], "jsp-or-asp-source")
    ∷ (0x89 ∷ 0x50 ∷ 0x4e ∷ 0x47 ∷ [], "png")
    ∷ (0x47 ∷ 0x49 ∷ 0x46 ∷ 0x38 ∷ [], "gif")
    ∷ (0xff ∷ 0xd8 ∷ 0xff ∷ [], "jpeg")
    ∷ []

-- `DESCRIPTIONS`
abbrev description_table : List (ℕ × Bytes × String)
description_table =
    (0, 0x50 ∷ 0x4b ∷ 0x03 ∷ 0x04 ∷ [], "Zip archive data, at least v2.0 to extract")
    ∷ (257, 0x75 ∷ 0x73 ∷ 0x74 ∷ 0x61 ∷ 0x72 ∷ 0x00 ∷ [], "POSIX tar archive")
    ∷ (257, 0x75 ∷ 0x73 ∷ 0x74 ∷ 0x61 ∷ 0x72 ∷ 0x20 ∷ 0x20 ∷ 0x00 ∷ [], "POSIX tar archive (GNU)")
    ∷ (0, 0x37 ∷ 0x7a ∷ 0xbc ∷ 0xaf ∷ 0x27 ∷ 0x1c ∷ [], "7-zip archive data, version 0.4")
    ∷ (0, 0x52 ∷ 0x61 ∷ 0x72 ∷ 0x21 ∷ 0x1a ∷ 0x07 ∷ [], "RAR archive data")
    ∷ (0, 0x1f ∷ 0x8b ∷ [], "gzip compressed data")
    ∷ (0, 0x42 ∷ 0x5a ∷ 0x68 ∷ [], "bzip2 compressed data")
    ∷ (0, 0xfd ∷ 0x37 ∷ 0x7a ∷ 0x58 ∷ 0x5a ∷ [], "XZ compressed data")
    ∷ (0, 0x25 ∷ 0x50 ∷ 0x44 ∷ 0x46 ∷ 0x2d ∷ [], "PDF document")
    ∷ (0, 0x7f ∷ 0x45 ∷ 0x4c ∷ 0x46 ∷ [], "ELF")
    ∷ (0, 0x4d ∷ 0x5a ∷ [], "PE32 executable")
    ∷ (0, 0x89 ∷ 0x50 ∷ 0x4e ∷ 0x47 ∷ [], "PNG image data")
    ∷ (0, 0x47 ∷ 0x49 ∷ 0x46 ∷ 0x38 ∷ [], "GIF image data")
    ∷ (0, 0xff ∷ 0xd8 ∷ 0xff ∷ [], "JPEG image data")
    ∷ []

abbrev find_magic : List (Bytes × String) → Bytes → Option String
find_magic [] bytes = none
find_magic ((sig, name) ∷ table) bytes =
    if starts_with bytes sig then some name else find_magic table bytes

abbrev find_description : List (ℕ × Bytes × String) → Bytes → Option String
find_description [] bytes = none
find_description ((at, sig, name) ∷ table) bytes =
    if leb at (length bytes) && starts_with (drop at bytes) sig
    then some name
    else find_description table bytes

-- `identify`
unfoldable pub identify : Bytes → Option String
identify bytes = find_magic magic_table bytes

-- `describe`
unfoldable pub describe : Bytes → Option String
describe bytes = find_description description_table bytes

abbrev hex_digit : ℕ → ℕ
hex_digit n = if ltb n 10 then 48 + n else 87 + n

-- `hex`
unfoldable pub hex : Bytes → Bytes
hex [] = []
hex (b ∷ bytes) = hex_digit (b / 16) ∷ hex_digit (b % 16) ∷ hex bytes
