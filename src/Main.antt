-- ===== src/Main.antt =====
-- src/main.cpp: the arguments, the signals and the server that is started. std::stoi is a parameter.
pub mod Service
use lloms.Base.{
  ℕ, ◌-◌, ◌%◌, ◌^◌, Bool, ◌||◌, Option, none, some, List, [], ◌∷◌, ◌==◌, if◌then◌else◌,
}
use lloms.Base.Int.{ℤ, pos, negsuc}
use lloms.Base.Text.{Text, bytes}
use mathlib.Core.Option
use lloms.Pool.{init}
use lloms.Gateway.System.{System, new_system, stop}

pub record Arguments : Type 0 where
  pub port : ℕ
  pub host : Text

-- `static_cast<uint16_t>`
unfoldable pub to_port : ℤ → ℕ
to_port (pos n) = n % 2 ^ 16
to_port (negsuc n) = 2 ^ 16 - 1 - n % 2 ^ 16

abbrev pub default_host : Text
default_host = bytes "0.0.0.0"

-- `none` when std::stoi throws. The first entry of `argv` is the program's name.
unfoldable pub read_arguments : (Text → Option ℤ) → List Text → Option Arguments
unfolding to_port
read_arguments stoi [] = some (record { port = 8080; host = default_host })
read_arguments stoi (name ∷ []) = some (record { port = 8080; host = default_host })
read_arguments stoi (name ∷ port ∷ []) =
    Option.map (λ n. record { port = to_port n; host = default_host }) (stoi port)
read_arguments stoi (name ∷ port ∷ host ∷ rest) =
    Option.map (λ n. record { port = to_port n; host = host }) (stoi port)

-- The pool and the default of `queue_capacity` in include/tcp_server.hpp.
unfoldable pub main_system : Option System
main_system = new_system (init 1000000) 65536

abbrev pub sigint : ℕ
sigint = 2

abbrev pub sigterm : ℕ
sigterm = 15

-- `g_server` is none before it is made.
unfoldable pub handle_signal : ℕ → Option System → Option System
unfolding stop
handle_signal signal server =
    if signal == sigint || (signal == sigterm) then Option.map stop server else server

-- By what `start` returns.
abbrev pub exit_code : Bool → ℕ
exit_code started = if started then 0 else 1
