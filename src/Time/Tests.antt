-- ===== src/Time/Tests.antt =====
-- Half a second and a bit more than a year, in text.
use sadie.Prelude.{◌≡◌, refl, [], ◌∷◌}
use sadie.Time.{sub_sec_digits, nanos_to_ticks, round_ticks}

sub_sec_run : sub_sec_digits 4 5 8 ≡ 54 ∷ 50 ∷ 53 ∷ 48 ∷ []
unfolding sub_sec_digits
sub_sec_run = refl

-- A division that is meant to round up: 1 ns at 1.25 GHz should be two ticks, and is one.
nanos_to_ticks_run : nanos_to_ticks 1250000000 1 ≡ 1
unfolding nanos_to_ticks
nanos_to_ticks_run = refl

round_ticks_run : round_ticks 100 1000 1 ≡ 150
unfolding round_ticks
round_ticks_run = refl
