-- ===== src/Redis/Pipe.antt =====
-- What the queue of commands and the worker promise together, and a reader of what they send.
use mathlib.Core.List.{append_assoc, append-nil}
use dbwrapper.Prelude.{
  ℕ, zero, suc, ◌≡◌, ◌∙◌, sym, refl, List, [], ◌∷◌, ◌++◌, Option, none, some, codes, map, length,
}
use dbwrapper.Tasks.Message.{TaskMsg, RawMsg}
use dbwrapper.Redis.Command.{format_command}
use dbwrapper.Redis.Wire.{read_command, read_command-format}
use dbwrapper.Redis.Delivery.{as_message}

-- The arguments of a `put`.
pub record Call : Type 0 where
  pub key : List ℕ
  pub value : List ℕ
  pub usr_data : ℕ
  pub fn : ℕ

abbrev pub argv_of : Call → List (List ℕ)
argv_of a = codes "SET" ∷ a.key ∷ a.value ∷ []

abbrev pub command_of : Call → RawMsg
command_of a = record { usr_data = a.usr_data; cb = a.fn; body = format_command (argv_of a) }

abbrev pub message_of : Call → TaskMsg
message_of a = as_message (command_of a)

pub data Turn : Type 0 where
  puts : Call → Turn
  works : Turn

-- What the queue and the worker together promise: calls wait, and a run of the worker issues them all.
pub record Pipe : Type 0 where
  pub issued : List Call
  pub waiting : List Call

abbrev pub pipe_step : Turn → Pipe → Pipe
pipe_step (puts a) p = record p { waiting = p.waiting ++ a ∷ [] }
pipe_step works p = record { issued = p.issued ++ p.waiting; waiting = [] }

abbrev pub pipe : List Turn → Pipe → Pipe
pipe [] p = p
pipe (t ∷ ts) p = pipe ts (pipe_step t p)

abbrev pub calls : List Turn → List Call
calls [] = []
calls (puts a ∷ ts) = a ∷ calls ts
calls (works ∷ ts) = calls ts

pub pipe-calls :
    (ts : List Turn) (p : Pipe)
    → (pipe ts p).issued ++ (pipe ts p).waiting ≡ (p.issued ++ p.waiting) ++ calls ts
pipe-calls [] p = sym (append-nil (p.issued ++ p.waiting))
pipe-calls (puts a ∷ ts) p = pipe-calls ts (pipe_step (puts a) p) ∙ simp append_assoc
pipe-calls (works ∷ ts) p = pipe-calls ts (pipe_step works p) ∙ simp (append_assoc, append-nil)

-- A server that reads commands off the wire, one after another.
abbrev pub read_commands : ℕ → List ℕ → Option (List (List (List ℕ)) × List ℕ)
read_commands zero cs = some ([], cs)
read_commands (suc n) cs = elim (read_command cs) [
  | none ↦ none
  | some (argv, rest) ↦ elim (read_commands n rest) [
    | none ↦ none
    | some (argvs, end) ↦ some (argv ∷ argvs, end)
  ]
]

abbrev pub wire : List RawMsg → List ℕ
wire [] = []
wire (m ∷ ms) = m.body ++ wire ms

pub read_commands-wire :
    (l : List Call) → read_commands (length l) (wire (map command_of l)) ≡ some (map argv_of l, [])
read_commands-wire [] = refl
read_commands-wire (a ∷ l) =
    rw
      (
        read_commands,
        read_command-format (argv_of a) (wire (map command_of l)),
        read_commands-wire l,
      )
      refl
