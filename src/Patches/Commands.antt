-- ===== src/Patches/Commands.antt =====
-- `is_safe_command` of src/synode/domain/runtime/commands.py.
use synode.Prelude.{String, Bool, true, false, not, ◌&&◌, ◌||◌, List, [], ◌∷◌, ◌==◌, mem_text}

abbrev safe_commands : List String
safe_commands = "rg" ∷ "ls" ∷ "pwd" ∷ "git" ∷ "pytest" ∷ "python" ∷ "python3" ∷ "uv" ∷ []

abbrev pub safe_git_subcommands : List String
safe_git_subcommands = "status" ∷ "diff" ∷ "show" ∷ "log" ∷ []

abbrev is_python : String → Bool
is_python command = command == "python" || command == "python3"

-- The tests of what follows the name of a command that is in the list.
unfoldable pub safe_arguments : String → List String → Bool
safe_arguments command [] = true
safe_arguments command (first ∷ []) =
    not (command == "git" && not (mem_text first safe_git_subcommands))
    && not (command == "uv" && not (first == "run"))
safe_arguments command (first ∷ second ∷ rest) =
    not (command == "git" && not (mem_text first safe_git_subcommands))
    && not (command == "uv" && not (first == "run"))
    && not (is_python command && first == "-m" && not (second == "pytest"))

unfoldable pub is_safe_command : List String → Bool
unfolding safe_arguments
is_safe_command [] = false
is_safe_command (command ∷ arguments) =
    mem_text command safe_commands && safe_arguments command arguments
