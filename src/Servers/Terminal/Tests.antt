-- ===== src/Servers/Terminal/Tests.antt =====
-- Runs of the terminal, and an instance of the theorem on `term_read`.
use operating_systems_compon.Base.{ℕ, ◌-◌, ◌≡◌, refl, some, List, [], ◌∷◌, codes, arith}
use operating_systems_compon.Servers.Terminal.{fatal, enter, backspace, term_read, handle_request}
use operating_systems_compon.Servers.Terminal.Editing.{Agrees, edited, but_last, term_read-Agrees}

-- `lx`, a backspace, `s`, Enter, and what is typed behind it.
abbrev keys : List ℕ
keys = b'l' ∷ b'x' ∷ backspace ∷ b's' ∷ enter ∷ b'p' ∷ []

edited-keys : edited 7 [] keys ≡ some (codes "ls", codes "p")
unfolding edited but_last
edited-keys = refl

term_read-Agrees_example : Agrees (edited (8 - 1) [] keys) (term_read 8 (λ j. 0) keys)
term_read-Agrees_example = term_read-Agrees 8 (λ j. 0) keys (omega arith) (omega arith)

-- A request that is longer than the buffer.
handle_request-long :
    handle_request (record { kind = 1; len = 513; buf = λ j. 0 }) (λ j. 0) [] ≡ fatal
unfolding handle_request
handle_request-long = refl
