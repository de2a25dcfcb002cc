-- ===== src/Connect/Runs.antt =====
-- The dialogue at the usual crystal frequency.
use lpctools.Base.{◌≡◌, refl, arith, [], ◌∷◌, ◌++◌, pos, codes}
use lpctools.Machine.{done}
use lpctools.Machine.Samples.{at_start}
use lpctools.Serial.Idle.{idle}
use lpctools.Text.{print_u}
use lpctools.Connect.{connect, freq_text, print_d}
use lpctools.Connect.Silent.{falls_silent, connect-falls_silent}
use lpctools.Connect.Dialogue.{device, dialogue, connect-dialogue}

-- A frequency of six digits loses its line feed.
six_digits : freq_text 100000 ≡ codes "100000" ++ (13 ∷ [])
unfolding freq_text print_d print_u
six_digits = refl

connect-dialogue_example :
    connect 12000 (idle at_start 0 (device 12000 []) [])
    ≡ done (pos 1) (idle at_start 0 [] ([] ++ dialogue 12000))
connect-dialogue_example = connect-dialogue 12000 at_start 0 [] [] (omega arith)

connect-falls_silent_example :
    connect 12000 (idle at_start 0 falls_silent [])
    ≡ done (pos 1) (idle at_start 0 [] ([] ++ dialogue 12000))
connect-falls_silent_example = connect-falls_silent 12000 at_start 0 [] (omega arith)
