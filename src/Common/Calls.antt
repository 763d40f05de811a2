-- ===== src/Common/Calls.antt =====
-- Member functions of a server: a call changes the server's state and returns, throws or faults, and
-- what it changed before a throw stays changed.
use ue4team_project_server.Common.Results.{Result, ok, throw, fault}

abbrev pub Call : Type 0 → Type 0 → Type 0
Call S A = S → Result A × S

abbrev pub after : {S A B : Type 0} → Result A × S → (A → Call S B) → Result B × S
after (ok a, s) next = next a s
after (throw type, s) next = (throw type, s)
after (fault, s) next = (fault, s)

infixl 5 ◌>>=◌ ◌>>◌
abbrev pub ◌>>=◌ : {S A B : Type 0} → Call S A → (A → Call S B) → Call S B
◌>>=◌ call next s = after (call s) next

abbrev pub ◌>>◌ : {S B : Type 0} → Call S (Unit {0}) → Call S B → Call S B
◌>>◌ call next s = after (call s) (λ _. next)

abbrev pub return : {S A : Type 0} → A → Call S A
return a s = (ok a, s)

abbrev pub get : {S : Type 0} → Call S S
get s = (ok s, s)

abbrev pub modify : {S : Type 0} → (S → S) → Call S (Unit {0})
modify change s = (ok tt, change s)

-- What does not touch the server.
abbrev pub lift : {S A : Type 0} → Result A → Call S A
lift result s = (result, s)

abbrev pub caught : {S : Type 0} → Result (Unit {0}) × S → (S → S) → Result (Unit {0}) × S
caught (ok value, s) handler = (ok value, s)
caught (throw type, s) handler = (ok tt, handler s)
caught (fault, s) handler = (fault, s)

-- `try { ... } catch (const std::exception&)`.
abbrev pub catch : {S : Type 0} → Call S (Unit {0}) → (S → S) → Call S (Unit {0})
catch body handler s = caught (body s) handler
