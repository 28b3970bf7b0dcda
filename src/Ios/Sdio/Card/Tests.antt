-- ===== src/Ios/Sdio/Card/Tests.antt =====
-- A read of two blocks with a buffer of its own, and an initialisation.
use libpeli.Base.{◌^◌, ◌+◌, ◌*◌, ℕ, ◌≡◌, refl, [], ◌∷◌, true, false, ◌==◌, if◌then◌else◌}
use libpeli.Util.Address.{is_aligned}
use libpeli.Ios.Sdio.Card.{
  Transfer, InitAnswers, device_init, device_available, Card, rounds, block_transfer, sent, select,
  deselect, Command, r1,
}

abbrev card : Card
card = record { block_buffer = 0; relative_card_address = 0; high_capacity = true }

abbrev read_at : ℕ → ℕ → Command
read_at count buffer = record {
  cmd = 18;
  response = r1;
  arg = 5 * 512;
  block_count = count;
  block_size = 512;
  buffer = buffer;
}

-- The second round reads the first block again, behind the two blocks of the caller's buffer.
block_transfer-two : block_transfer 0 (λ i. 0) 5 2 4096 false card ≡ (
  0,
  sent (select card) ∷ sent (read_at 2 4096) ∷ sent (read_at 1 (4096 + 1024)) ∷ sent deselect ∷ [],
)
unfolding block_transfer rounds is_aligned
block_transfer-two = refl

-- A card of standard capacity; the last of three rounds fails.
abbrev reading : Transfer
reading = record { is_write = false; high_capacity = false; first = 5; temp = 8192 }

abbrev third_fails : ℕ → ℕ
third_fails i = if i == 2 then 7 else 0

-- A memory card of high capacity is found and set up.
abbrev found : InitAnswers
found = record {
  reset_error = 0;
  reset_output = 7 * 2 ^ 16;
  status_error = 0;
  status = 2 ^ 20 + 2 ^ 16 + 1;
  bus_error = 0;
  clock_error = 0;
  command_errors = 0 ∷ 0 ∷ 0 ∷ 0 ∷ [];
}

device_init-found :
    ((device_init found card).0 ≡ 0)
    × ((device_init found card).1 ≡ record card { relative_card_address = 7; high_capacity = true })
    × (device_available 0 found.status ≡ true)
unfolding device_init device_available
device_init-found = (refl, refl, refl)
