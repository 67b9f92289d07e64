-- ===== src/Redis/Command.antt =====
-- include/adapter/redis/command.hpp: `redis_command` for keys and values that are strings.
unfoldable pub use dbwrapper.Prelude.Decimal.{digits, print_nat}
use dbwrapper.Prelude.{ℕ, List, [], ◌∷◌, ◌++◌, length, codes}
use dbwrapper.Tasks.Message.{MsgType, task_redis_put}

abbrev pub crlf : List ℕ
crlf = 13 ∷ 10 ∷ []

-- The loop of `redis_formatCommand`.
unfoldable pub format_args : List (List ℕ) → List ℕ
format_args [] = []
format_args (a ∷ argv) =
    codes "$" ++ (print_nat (length a) ++ (crlf ++ (a ++ (crlf ++ format_args argv))))

-- `redis_formatCommand`
unfoldable pub format_command : List (List ℕ) → List ℕ
format_command argv = codes "*" ++ (print_nat (length argv) ++ (crlf ++ format_args argv))

-- `get_format_command`
unfoldable pub get_format_command : MsgType → List ℕ → List ℕ → List ℕ
get_format_command task_redis_put key value = format_command (codes "SET" ∷ key ∷ value ∷ [])
get_format_command _ key value = []
