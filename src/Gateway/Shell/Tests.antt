-- ===== src/Gateway/Shell/Tests.antt =====
-- The quoting of shell words, at words with quotes.
use agnet.Common.{◌≡◌, refl, some}
use agnet.Common.Text.{bytes}
use agnet.Common.Strings.{has_prefix, trim_prefix}
use agnet.Gateway.Shell.{escaped, shell_quote, restart_candidate_shell_word}
use agnet.Gateway.Shell.Laws.{bare, shell_word, shell_word-shell_quote}

quoted : shell_quote (bytes "it's") ≡ bytes "'it'\\''s'"
unfolding shell_quote escaped
quoted = refl

-- What is after `$HOME/` is not quoted: a shell runs the command in it.
command_kept :
    restart_candidate_shell_word (bytes "$HOME/$(id)/agentd") ≡ bytes "\"$HOME/$(id)/agentd\""
unfolding restart_candidate_shell_word has_prefix trim_prefix
command_kept = refl

shell_word-shell_quote_example : shell_word bare (shell_quote (bytes "it's")) ≡ some (bytes "it's")
shell_word-shell_quote_example = shell_word-shell_quote (bytes "it's")
