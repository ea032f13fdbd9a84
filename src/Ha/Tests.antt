-- ===== src/Ha/Tests.antt =====
-- The election at two concrete peers, and where both peers step down.
use monsoon.Prelude.{arith, ap, get_or, length, ◌==◌, true, false, [], ◌∷◌, ◌≡◌, ◌≢◌, refl, pos}
use monsoon.Bytes.{Bytes}
use monsoon.Text.{trim_space}
use monsoon.Ha
use monsoon.Ha.{secondary, node_name}
use monsoon.Ha.Election.{AreOpposed, elect_role-AreOpposed}

-- host names that are in lower case already
abbrev as_is : Bytes → Bytes
as_is s = s

abbrev first : Bytes
first = b'a' ∷ []

abbrev second : Bytes
second = b'b' ∷ []

first_there : (length (trim_space first) == 0) ≡ false
unfolding trim_space
first_there = refl

second_there : (length (trim_space second) == 0) ≡ false
unfolding trim_space
second_there = refl

first_named : (length (node_name as_is first) == 0) ≡ false
unfolding node_name
first_named = refl

second_named : (length (node_name as_is second) == 0) ≡ false
unfolding node_name
second_named = refl

names_differ : node_name as_is first ≢ node_name as_is second
unfolding node_name
names_differ h = absurd (omega (arith, ap (λ s. get_or s 0 0) h))

elect_role-AreOpposed_example :
    AreOpposed
      (Ha.elect_role as_is first second [] true (pos 0) (pos 9) false (pos 0) (pos 100))
      (Ha.elect_role as_is second first [] true (pos 0) (pos 9) false (pos 100) (pos 0))
elect_role-AreOpposed_example =
    elect_role-AreOpposed as_is first second [] [] (pos 9) (pos 9) (pos 0) (pos 100) first_there
      second_there first_named second_named names_differ

-- a peer that is stepping down is secondary, even when the other one is draining as well
stepping_down :
    Ha.elect_role as_is first second [] true (pos 20) (pos 9) true (pos 0) (pos 0) ≡ secondary
unfolding Ha.elect_role
stepping_down = refl
