-- ===== src/Ios/Sdio/Card.antt =====
-- peli/ios/sdio/Card.cpp and peli/ios/sdio/Card.hpp: the block transfer and the initialisation.
-- What IOS answers to a request is an argument, 0 for no error; the result lists the commands
-- sent and the copies, in order.
pub mod Rounds
mod Tests
use libpeli.Base.{
  ℕ, zero, suc, ◌+◌, ◌*◌, ◌/◌, ◌%◌, ◌^◌, ◌-◌, bit_and, Bool, true, false, not, ◌&&◌, ◌||◌, List, [],
  ◌∷◌, ◌++◌, ◌==◌, leb, if◌then◌else◌,
}
use libpeli.Base.Word.{add32, u16}
use libpeli.Util.Address.{is_aligned}

abbrev pub sector_size : ℕ
sector_size = 512

abbrev pub dma_block_size : ℕ
dma_block_size = 32

abbrev pub max_transfer_size : ℕ
max_transfer_size = 4

-- `-0x3F000000 + 4`, as a 32-bit pattern.
abbrev pub sd_error_remove : ℕ
sd_error_remove = 2 ^ 32 - 0x3F000000 + 4

abbrev pub invalid : ℕ
invalid = 2 ^ 32 - 4

pub data Response : Type 0 where
  r1 r1b : Response

-- `cmd_type` is 3 in every command.
pub record Command : Type 0 where
  pub cmd : ℕ
  pub response : Response
  pub arg : ℕ
  pub block_count : ℕ
  pub block_size : ℕ
  pub buffer : ℕ

pub record Card : Type 0 where
  pub block_buffer : ℕ
  pub relative_card_address : ℕ
  pub high_capacity : Bool

pub data Event : Type 0 where
  sent : Command → Event
  copied : ℕ → ℕ → ℕ → Event

abbrev plain : ℕ → Response → ℕ → Command
plain cmd response arg = record {
  cmd = cmd;
  response = response;
  arg = arg;
  block_count = 0;
  block_size = 0;
  buffer = 0;
}

abbrev pub select : Card → Command
select c = plain 7 r1b (c.relative_card_address * 2 ^ 16)

abbrev pub deselect : Command
deselect = plain 7 r1b 0

-- As in the source, this is the command that selects.
abbrev pub set_block_length : ℕ → Command
set_block_length n = plain 7 r1 n

abbrev pub app_command : ℕ → Command
app_command arg = plain 55 r1 arg

abbrev pub set_bus_width : ℕ → Command
set_bus_width width = plain 6 r1 width

abbrev pub round_blocks : ℕ → ℕ
round_blocks count = if leb count max_transfer_size then count else max_transfer_size

-- What a transfer does from round to round; `temp` is the buffer of the card, 0 if there is none.
pub record Transfer : Type 0 where
  pub is_write : Bool
  pub high_capacity : Bool
  pub first : ℕ
  pub temp : ℕ

abbrev pub uses_temp : Transfer → Bool
uses_temp t = not (t.temp == 0)

abbrev pub command_of : Transfer → ℕ → ℕ → Command
command_of t count buffer = record {
  cmd = if t.is_write then 25 else 18;
  response = r1;
  arg = if t.high_capacity then t.first * sector_size % 2 ^ 32 else t.first;
  block_count = round_blocks count;
  block_size = sector_size;
  buffer = if uses_temp t then t.temp else buffer;
}

abbrev pub copy_in : Transfer → ℕ → ℕ → List Event
copy_in t count buffer =
    if t.is_write && uses_temp t
    then copied t.temp buffer (round_blocks count * sector_size) ∷ []
    else []

abbrev pub copy_out : Transfer → ℕ → ℕ → List Event
copy_out t count buffer =
    if not t.is_write && uses_temp t
    then copied buffer t.temp (round_blocks count * sector_size) ∷ []
    else []

abbrev pub then_events : List Event → ℕ × List Event → ℕ × List Event
then_events es r = (r.0, es ++ r.1)

-- The loop with `count` as in the source; `answers` is for the rounds to come.
pub rounds : Transfer → ℕ → ℕ → (ℕ → ℕ) → ℕ × List Event
rounds t zero buffer answers = (0, [])
rounds t (suc n) buffer answers =
    let rest =
      rounds t n (add32 buffer (round_blocks (suc n) * sector_size)) (λ i. answers (suc i)) in
    let command = sent (command_of t (suc n) buffer) in
    if answers 0 == 0
    then then_events (copy_in t (suc n) buffer ++ (command ∷ copy_out t (suc n) buffer)) rest
    else (answers 0, copy_in t (suc n) buffer ++ (command ∷ []))

-- `selected` is the answer to the selection, `answers` those to the rounds.
pub block_transfer : ℕ → (ℕ → ℕ) → ℕ → ℕ → ℕ → Bool → Card → ℕ × List Event
unfolding rounds
block_transfer selected answers first count buffer is_write c =
    let t : Transfer = record {
      is_write = is_write;
      high_capacity = c.high_capacity;
      first = first;
      temp = c.block_buffer;
    } in
    let moved = rounds t count buffer answers in
    if count == 0
    then (0, [])
    else if (c.block_buffer == 0) && not (is_aligned dma_block_size buffer)
    then (invalid, sent (select c) ∷ [])
    else if selected == 0
    then (moved.0, sent (select c) ∷ (moved.1 ++ (sent deselect ∷ [])))
    else (selected, sent (select c) ∷ sent deselect ∷ [])

-- The answers of an initialisation: an error, and an output where the request has one.
pub record InitAnswers : Type 0 where
  pub reset_error : ℕ
  pub reset_output : ℕ
  pub status_error : ℕ
  pub status : ℕ
  pub bus_error : ℕ
  pub clock_error : ℕ
  pub command_errors : List ℕ

abbrev pub first_error : List ℕ → ℕ
first_error [] = 0
first_error (e ∷ es) = if e == 0 then first_error es else e

abbrev pub init_commands : Card → List Command
init_commands c =
    select c
    ∷ set_block_length sector_size
    ∷ app_command (c.relative_card_address * 2 ^ 16)
    ∷ set_bus_width 2
    ∷ deselect
    ∷ []

-- The error, the card and the commands sent.
pub device_init : InitAnswers → Card → ℕ × Card × List Command
device_init a c =
    let addressed : Card = record c { relative_card_address = u16 (a.reset_output / 2 ^ 16) } in
    let known : Card = record addressed { high_capacity = not (bit_and a.status (2 ^ 20) == 0) } in
    if not (a.reset_error == 0)
    then (a.reset_error, c, [])
    else if not (a.status_error == 0)
    then (a.status_error, addressed, [])
    else if (bit_and a.status 1 == 0) || (bit_and a.status (2 ^ 16) == 0)
    then (sd_error_remove, addressed, [])
    else if not (a.bus_error == 0)
    then (a.bus_error, known, [])
    else (
      if a.clock_error == 0 then first_error a.command_errors else a.clock_error,
      known,
      init_commands known,
    )

-- `Device_Available`, from the answer to `GetStatus`.
pub device_available : ℕ → ℕ → Bool
device_available error status =
    (error == 0) && not (bit_and status 1 == 0) && not (bit_and status (2 ^ 16) == 0)
