-- ===== src/Gateway/Shell.antt =====
-- The commands that a restart sends over ssh (agentgw/internal/node/manager.go). `filepath.Join` is
-- outside: the joined path is an argument. Numbers are written by strconv, outside too.
pub mod Laws
mod Tests
use agnet.Common.{
  ℕ, ◌+◌, ◌<◌, Bool, true, false, ◌&&◌, ◌||◌, not, Option, none, some, List, [], ◌∷◌, ◌++◌, ◌==◌,
  ltb, if◌then◌else◌,
}
use agnet.Common.Text.{Bytes, bytes, ◌=b◌, is_empty}
use agnet.Common.Strings.{has_prefix, trim_prefix}
use agnet.Gateway.{Node}

-- `strings.ReplaceAll(value, "'", "'\\''")`
unfoldable pub escaped : Bytes → Bytes
escaped [] = []
escaped (b ∷ s) =
    let rest = escaped s in if b == 0x27 then 0x27 ∷ 0x5C ∷ 0x27 ∷ 0x27 ∷ rest else b ∷ rest

unfoldable pub shell_quote : Bytes → Bytes
unfolding escaped
shell_quote value = 0x27 ∷ (escaped value ++ (0x27 ∷ []))

unfoldable pub restart_candidate_shell_word : Bytes → Bytes
restart_candidate_shell_word candidate =
    if has_prefix candidate (bytes "$HOME/")
    then bytes "\"$HOME/" ++ (trim_prefix candidate (bytes "$HOME/") ++ bytes "\"")
    else shell_quote candidate

abbrev pub among : Bytes → List Bytes → Bool
among p [] = false
among p (q ∷ qs) = q =b p || among p qs

-- The closure `add`.
abbrev pub add_candidate : Bytes → List Bytes → List Bytes
add_candidate p qs = if (p =b []) || among p qs then qs else qs ++ (p ∷ [])

-- `joined` is `filepath.Join(remoteDir, "agentd")`.
unfoldable pub ordered_restart_candidates : Bytes → Bytes → List Bytes
ordered_restart_candidates remote_dir joined =
    let first = if remote_dir =b [] then [] else add_candidate joined [] in
    add_candidate (bytes "/opt/agentd/agentd")
      (add_candidate (bytes "$HOME/agentd") (add_candidate (bytes "$HOME/bin/agentd") first))

abbrev words : List Bytes → Bytes
words [] = []
words (w ∷ []) = restart_candidate_shell_word w
words (w ∷ v ∷ ws) = restart_candidate_shell_word w ++ (bytes " " ++ words (v ∷ ws))

abbrev semicolons : List Bytes → Bytes
semicolons [] = []
semicolons (w ∷ []) = w
semicolons (w ∷ v ∷ ws) = w ++ (bytes "; " ++ semicolons (v ∷ ws))

unfoldable pub build_restart_command : Bytes → Bytes → Bytes
build_restart_command remote_dir joined = semicolons (
    bytes "set -e"
    ∷ bytes "found=''"
    ∷ (bytes "for bin in "
        ++ (words (ordered_restart_candidates remote_dir joined)
            ++ bytes "; do if [ -x \"$bin\" ]; then found=\"$bin\"; break; fi; done"))
    ∷ bytes
        "if [ -z \"$found\" ]; then echo 'agentd binary not found in known locations' >&2; exit 127; fi"
    ∷ bytes "pkill -f '[a]gentd start' 2>/dev/null || true"
    ∷ bytes "sleep 1"
    ∷ bytes
        "if command -v setsid >/dev/null 2>&1; then setsid \"$found\" start >/tmp/agentd.log 2>&1 < /dev/null & else nohup \"$found\" start >/tmp/agentd.log 2>&1 < /dev/null & fi"
    ∷ [])

unfoldable pub ssh_args_for_node : (ℕ → Bytes) → Node → Bytes → List Bytes
ssh_args_for_node decimal n command =
    let args =
      bytes "-o"
      ∷ bytes "ConnectTimeout=5"
      ∷ bytes "-o"
      ∷ bytes "ServerAliveInterval=5"
      ∷ (if is_empty n.ssh_key_path then [] else bytes "-i" ∷ bytes n.ssh_key_path ∷ []) in
    if not (is_empty n.ssh_alias)
    then args ++ (bytes n.ssh_alias ∷ command ∷ [])
    else (args
        ++ (if ltb 0 n.ssh_port && not (n.ssh_port == 22)
            then bytes "-p" ∷ decimal n.ssh_port ∷ []
            else []))
      ++ (bytes n.host ∷ command ∷ [])
