-- ===== src/Bitmap/Tests.antt =====
-- `BitMap64` on small words.
use cloudfuse.Base.{◌≡◌, refl, true, false, not, ◌==◌, ◌||◌, ◌&&◌}
use cloudfuse.Bitmap.{is_set, set, clear, reset}
use cloudfuse.Bitmap.Laws.{is_set-set, is_set-clear}

set_new : set 2 3 ≡ record { word = 10; changed = true }
unfolding set
set_new = refl

clear_again : clear 2 3 ≡ record { word = 2; changed = false }
unfolding clear
clear_again = refl

reset_some : reset 10 ≡ record { word = 0; changed = true }
unfolding reset
reset_some = refl

set_other_test :
    (is_set (set 2 3).word 1 ≡ (1 == 3 || is_set 2 1)) × ((set 2 3).changed ≡ not (is_set 2 3))
set_other_test = is_set-set 2 3 1

clear_other_test :
    (is_set (clear 10 3).word 1 ≡ (not (1 == 3) && is_set 10 1))
    × ((clear 10 3).changed ≡ is_set 10 3)
clear_other_test = is_set-clear 10 3 1
