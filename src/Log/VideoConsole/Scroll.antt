-- ===== src/Log/VideoConsole/Scroll.antt =====
-- peli/log/VideoConsole.cpp: MoveUp on an upright console.
use libpeli.Base.{ℕ, ◌*◌, ◌/◌, ◌<◌, ◌≡◌, ap, ◌∙◌, false}
use libpeli.Util.Address.{align_down}
use libpeli.Util.Address.Align.{align_down_small}
use libpeli.Log.VideoConsole.{Share, moved, move_up, is_sideways, copy_eights}

-- For an upright console whose frame buffer and the height to move by both have more than 32
-- words, `MoveUp` leaves the console as it is.
pub move_up-idle :
    (height : ℕ) (s : Share)
    → is_sideways s ≡ false
    → 32 < height * (s.xfb_width / 2)
    → 32 < s.xfb_height * (s.xfb_width / 2)
    → move_up height s ≡ s
unfolding move_up moved
move_up-idle height s upright some_rows some_words =
    ap (λ b. record s { xfb = moved b height s.xfb_width s.xfb_height s.xfb }) upright
    ∙ ap
        (λ t. record s {
          xfb = copy_eights t t 0 (align_down (height * (s.xfb_width / 2)) 32) s.xfb;
        })
        (align_down_small (s.xfb_height * (s.xfb_width / 2)) 32 some_words)
