-- ===== src/Net/Closing.antt =====
-- `Closed` (crates/fallingsand_net/src/framing.rs): the reason that a connection closed for. The lock
-- makes each call one step.
use fallingsand.Prelude.{
  ℕ, ◌≡◌, refl, Bool, true, false, not, ◌&&◌, if◌then◌else◌, Option, none, some, List, [], ◌∷◌,
}

-- The text stands for the string.
pub record Reason : Type 0 where
  pub text : ℕ
  pub authoritative : Bool

unfoldable pub replaces : Option Reason → Bool → Bool
replaces none authoritative = true
replaces (some r) authoritative = authoritative && not r.authoritative

unfoldable pub set : Option Reason → ℕ → Bool → Option Reason
unfolding replaces
set slot text authoritative =
    if replaces slot authoritative
    then some (record { text = text; authoritative = authoritative })
    else slot

unfoldable pub mark : Option Reason → ℕ → Option Reason
unfolding set
mark slot text = set slot text true

unfoldable pub hint : Option Reason → ℕ → Option Reason
unfolding set
hint slot text = set slot text false

-- Calls in the order in which they take the lock: a mark where the flag is set, a hint elsewhere.
unfoldable pub calls : Option Reason → List (ℕ × Bool) → Option Reason
unfolding mark hint
calls slot [] = slot
calls slot ((text, true) ∷ rest) = calls (mark slot text) rest
calls slot ((text, false) ∷ rest) = calls (hint slot text) rest

unfoldable pub status : Option Reason → Option ℕ
status none = none
status (some r) = some r.text

-- The text of the first call with authority.
abbrev pub first_mark : List (ℕ × Bool) → Option ℕ
first_mark [] = none
first_mark ((text, true) ∷ rest) = some text
first_mark ((text, false) ∷ rest) = first_mark rest

abbrev pub first_call : List (ℕ × Bool) → Option ℕ
first_call [] = none
first_call ((text, authoritative) ∷ rest) = some text

abbrev pub or_else : Option ℕ → Option ℕ → Option ℕ
or_else (some a) b = some a
or_else none b = b

marked :
    (t : ℕ) (cs : List (ℕ × Bool))
    → status (calls (some (record { text = t; authoritative = true })) cs) ≡ some t
unfolding status calls mark hint set replaces
marked t [] = refl
marked t ((u, true) ∷ cs) = marked t cs
marked t ((u, false) ∷ cs) = marked t cs

hinted :
    (t : ℕ) (cs : List (ℕ × Bool))
    → status (calls (some (record { text = t; authoritative = false })) cs)
      ≡ or_else (first_mark cs) (some t)
unfolding status calls mark hint set replaces
hinted t [] = refl
hinted t ((u, true) ∷ cs) = marked u cs
hinted t ((u, false) ∷ cs) = hinted t cs

-- After any marks and hints, a connection reports the text of the first mark, without one that of
-- the first hint, and without either that it is connected.
pub status-calls :
    (cs : List (ℕ × Bool)) → status (calls none cs) ≡ or_else (first_mark cs) (first_call cs)
unfolding status calls mark hint set replaces
status-calls [] = refl
status-calls ((t, true) ∷ cs) = marked t cs
status-calls ((t, false) ∷ cs) = hinted t cs
