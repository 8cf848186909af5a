-- ===== src/Tcp.antt =====
-- tcp/tcpinfo.go: the names of the TCP states. A `State` is an `int32`, and `fmt.Sprintf` of one that
-- has no name is a parameter.
use tcp_info.Base.Assoc.{lookup}
use tcp_info.Base.Int64.{ℤ, pos, negsuc}
use tcp_info.Base.{ℕ, List, [], ◌∷◌, Option, none, some}
use Prim.Native.String.{String}

-- `stateName`.
abbrev pub state_names : List (ℕ × String)
state_names =
    (0, "INVALID")
    ∷ (1, "ESTABLISHED")
    ∷ (2, "SYN_SENT")
    ∷ (3, "SYN_RECV")
    ∷ (4, "FIN_WAIT1")
    ∷ (5, "FIN_WAIT2")
    ∷ (6, "TIME_WAIT")
    ∷ (7, "CLOSE")
    ∷ (8, "CLOSE_WAIT")
    ∷ (9, "LAST_ACK")
    ∷ (10, "LISTEN")
    ∷ (11, "CLOSING")
    ∷ []

-- The name of a state; no negative number has one.
abbrev pub state_name : ℤ → Option String
state_name (pos n) = lookup n state_names
state_name (negsuc n) = none

-- `State.String`.
abbrev pub state_string : (ℤ → String) → ℤ → String
state_string sprintf x = elim (state_name x) [ some s ↦ s | none ↦ sprintf x ]
