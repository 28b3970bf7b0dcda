-- ===== src/Nand/Ipl.antt =====
-- peli/nand/conf/Ipl.hpp: the settings of the system menu, on top of the reader. The offset of an
-- entry stands for the pointer to its data; `none` inside is the result false.
pub mod Arrays
mod Tests
use libpeli.Base.{
  ◌-◌, ℕ, zero, suc, ◌+◌, ◌*◌, ◌%◌, ◌^◌, Bool, true, false, not, ◌&&◌, ◌||◌, leb, List, [], ◌∷◌,
  Option, none, some, ◌==◌, if◌then◌else◌, ◌>>=◌,
}
use libpeli.Nand.SysConf.{Data, Entry, EntryType, read8, read16}
use libpeli.Nand.SysConf.EntryType.{
  no_entry, big_array, small_array, byte, short, long, long_long, bool,
}
use libpeli.Nand.SysConf.Lock.{SysConf}
use libpeli.Nand.SysConf.Get.{get}
use libpeli.Nand.SysConf.GetData.{get_data}

-- `"IPL." + name`
abbrev pub ipl : List ℕ → List ℕ
ipl name = 0x49 ∷ 0x50 ∷ 0x4c ∷ 0x2e ∷ name

-- What a getter gives, and the reader after it.
abbrev pub Answer : Type 0 → Type 0
Answer A = Option (Option A × SysConf)

abbrev low_bits : ℕ → Option (EntryType × ℕ) → Option ℕ
low_bits bits none = none
low_bits bits (some (type, n)) = some (n % 2 ^ bits)

-- `Get(key, value, lookup) != None`, the value cast to so many bits.
pub get_value : ℕ → List ℕ → ℕ → ℕ × Data → SysConf → Answer ℕ
get_value bits key lookup answer c = do
  (r, c) ← get answer (some key) lookup c
  some (low_bits bits r, c)

-- The same for a `bool`.
pub get_flag : List ℕ → ℕ → ℕ × Data → SysConf → Answer Bool
unfolding get_value
get_flag key lookup answer c = do
  (r, c) ← get_value 64 key lookup answer c
  some (elim r [ none ↦ none | some n ↦ some (not (n == 0)) ], c)

module _ (answer : ℕ × Data) (c : SysConf) where
  pub get_counter_bias : Answer ℕ
  get_counter_bias = get_value 32 (ipl (0x43 ∷ 0x42 ∷ [])) 0 answer c

  pub get_aspect_ratio : Answer ℕ
  get_aspect_ratio = get_value 8 (ipl (0x41 ∷ 0x52 ∷ [])) 1 answer c

  pub get_auto_run_mode : Answer ℕ
  get_auto_run_mode = get_value 8 (ipl (0x41 ∷ 0x52 ∷ 0x4e ∷ [])) (2 ^ 32 - 1) answer c

  pub get_config_done : Answer Bool
  get_config_done = get_flag (ipl (0x43 ∷ 0x44 ∷ [])) 3 answer c

  pub get_config_done2 : Answer Bool
  get_config_done2 = get_flag (ipl (0x43 ∷ 0x44 ∷ 0x32 ∷ [])) 4 answer c

  pub get_display_offset_horizontal : Answer ℕ
  get_display_offset_horizontal = get_value 8 (ipl (0x44 ∷ 0x48 ∷ [])) 5 answer c

  pub get_eurgb60_mode : Answer ℕ
  get_eurgb60_mode = get_value 8 (ipl (0x45 ∷ 0x36 ∷ 0x30 ∷ [])) 6 answer c

  pub get_eula_done : Answer Bool
  get_eula_done = get_flag (ipl (0x45 ∷ 0x55 ∷ 0x4c ∷ 0x41 ∷ [])) 7 answer c

  pub get_free_channel_app_count : Answer ℕ
  get_free_channel_app_count = get_value 32 (ipl (0x46 ∷ 0x52 ∷ 0x43 ∷ [])) 8 answer c

  pub get_installed_channel_app_count : Answer ℕ
  get_installed_channel_app_count = get_value 32 (ipl (0x49 ∷ 0x4e ∷ 0x43 ∷ [])) 10 answer c

  pub get_language : Answer ℕ
  get_language = get_value 8 (ipl (0x4c ∷ 0x4e ∷ 0x47 ∷ [])) 11 answer c

  pub get_progressive_mode : Answer ℕ
  get_progressive_mode = get_value 8 (ipl (0x50 ∷ 0x47 ∷ 0x53 ∷ [])) 14 answer c

  pub get_screen_saver_mode : Answer ℕ
  get_screen_saver_mode = get_value 8 (ipl (0x53 ∷ 0x53 ∷ 0x56 ∷ [])) 15 answer c

  pub get_sound_mode : Answer ℕ
  get_sound_mode = get_value 8 (ipl (0x53 ∷ 0x4e ∷ 0x44 ∷ [])) 17 answer c

  pub get_update_type : Answer ℕ
  get_update_type = get_value 8 (ipl (0x55 ∷ 0x50 ∷ 0x54 ∷ [])) 18 answer c

  pub get_temporary_title_id : Answer ℕ
  get_temporary_title_id = get_value 64 (ipl (0x54 ∷ 0x49 ∷ 0x44 ∷ [])) 36 answer c

  pub get_auto_power_down : Answer ℕ
  get_auto_power_down = get_value 32 (ipl (0x41 ∷ 0x50 ∷ 0x44 ∷ [])) 38 answer c
