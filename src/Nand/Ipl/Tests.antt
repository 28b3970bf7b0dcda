-- ===== src/Nand/Ipl/Tests.antt =====
-- The settings of a file with one entry, and the theorems at it.
use libpeli.Base.{
  if◌then◌else◌, ◌==◌, ◌<◌, ◌⊎◌, ℕ, leb, ltb, ◌&&◌, ◌≡◌, refl, false, arith, none, some,
}
use libpeli.Nand.Ipl.Arrays.Nickname.{after, get_console_nickname-overruns}
use libpeli.Nand.SysConf.{Data, size}
use libpeli.Nand.Ipl.Arrays.{get_console_nickname, get_simple_address}
use libpeli.Nand.SysConf.Lock.{SysConf, valid}
use libpeli.Nand.SysConf.Get.{Got}
use libpeli.Nand.Ipl.Arrays.Large.{get_simple_address-refused}

-- One entry: the nickname, 22 bytes at 19.
abbrev named : Data
named o =
    if o == 5
    then 1
    else if o == 7
    then 10
    else if o == 10
    then 0x46
    else if o == 11
    then 0x49
    else if o == 12
    then 0x50
    else if o == 13
    then 0x4c
    else if o == 14
    then 0x2e
    else if o == 15
    then 0x4e
    else if o == 16
    then 0x49
    else if o == 17
    then 0x4b
    else if o == 18
    then 21
    else if leb 19 o && ltb o 41
    then o
    else 0

named-bytes : (o : ℕ) → named o < 256
named-bytes o = ground arith

abbrev reader : SysConf
reader = record { state = valid; bytes = named; locked = false }

reader-Got : Got reader
reader-Got = (refl, (λ _. omega arith), named-bytes)

get_simple_address-refused_example :
    (c' : SysConf) × (get_simple_address (size, named) reader ≡ some (none, c')) × Got c'
get_simple_address-refused_example =
    get_simple_address-refused (size, named) reader reader-Got named-bytes

get_console_nickname-overruns_example :
    (c' : SysConf) × Got c'
    × ((get_console_nickname (size, named) reader (λ j. 7) ≡ some (none, c'))
        ⊎ ((offset : ℕ) × (m' : ℕ → ℕ) × (get_console_nickname (size, named) reader (λ j. 7)
              ≡ some (some m', c'))
            × ((j : ℕ) → m' j ≡ after c'.bytes offset (λ j. 7) j)))
get_console_nickname-overruns_example =
    get_console_nickname-overruns (size, named) reader (λ j. 7) reader-Got named-bytes
