-- ===== src/Servers/Requests/Tests.antt =====
-- Runs of `parse_request`, and an instance of the theorem on it.
use operating_systems_compon.Base.{
  ℕ, ◌<◌, ◌≡◌, refl, some, none, [], length, get_or, All, codes, split, not_empty, words, arith,
}
use operating_systems_compon.Servers.{cmd_nargs}
use operating_systems_compon.Servers.Requests.{
  Argv, parse_request, scan, scan_one, scan_byte, scan_space, scan_start, argc_of, put_byte,
}
use operating_systems_compon.Servers.Requests.Scanning.{IsShort}
use operating_systems_compon.Servers.Requests.Words.{parse_request-words}

-- The sixteenth space behind an argument is refused.
parse_sixteen : parse_request (codes "a a a a a a a a a a a a a a a a ") ≡ none
unfolding parse_request scan scan_one scan_byte scan_space scan_start argc_of put_byte
parse_sixteen = refl

ls-IsShort : All IsShort (words b' ' (codes "  ls  /home "))
unfolding words split not_empty
ls-IsShort = (omega arith, (omega arith, tt))

ls_few : length (words b' ' (codes "  ls  /home ")) < cmd_nargs
unfolding words split not_empty
ls_few = omega arith

parse_request-words_example :
    (argv : Argv) × (parse_request (codes "  ls  /home ")
      ≡ some (length (words b' ' (codes "  ls  /home ")), argv))
    × ((k j : ℕ) → argv k j ≡ get_or (get_or (words b' ' (codes "  ls  /home ")) k []) j 0)
parse_request-words_example = parse_request-words (codes "  ls  /home ") ls-IsShort ls_few
