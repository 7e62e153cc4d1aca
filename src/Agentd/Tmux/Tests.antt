-- ===== src/Agentd/Tmux/Tests.antt =====
-- Runs of `sendTmuxInput`, and its theorems at concrete texts.
use agnet.Common.{◌≡◌, refl, none, some, [], ◌∷◌}
use agnet.Common.Text.{Bytes}
use agnet.Agentd.Tmux.{
  key, literal, enter, Reply, running, send_tmux_input, next_piece, next_control, send_piece,
  send_tmux_literal, send_literal_loop, send_tmux_key,
}
use agnet.Agentd.Tmux.Literal.{Delivers}
use agnet.Agentd.Tmux.Input.{send_tmux_input-Delivers, send_tmux_input_hangs}
use agnet.Agentd.Tmux.Calls.{ArePlain, send_tmux_input-ArePlain}

abbrev accepts_all : Reply
accepts_all done c = none

-- `tmux` fails once a call has been made.
abbrev fails_second : Reply
fails_second [] c = none
fails_second (d ∷ done) c = some ("", "exit status 1")

abbrev hi_enter : Bytes
hi_enter = b'h' ∷ b'i' ∷ 0x0A ∷ []

abbrev ctrl_c : Bytes
ctrl_c = 0x03 ∷ []

hi_enter_sent :
    (send_tmux_input accepts_all 4 [] hi_enter).calls ≡ key enter ∷ literal (b'h' ∷ b'i' ∷ []) ∷ []
unfolding send_tmux_input next_piece next_control send_piece send_tmux_literal send_literal_loop
    send_tmux_key
hi_enter_sent = refl

send_tmux_input-Delivers_example :
    Delivers fails_second (b'h' ∷ b'i' ∷ 0x0D ∷ []) (send_tmux_input fails_second 4 [] hi_enter)
send_tmux_input-Delivers_example = send_tmux_input-Delivers fails_second hi_enter refl

send_tmux_input_hangs_example : (send_tmux_input accepts_all 1000 [] ctrl_c).ending ≡ running
send_tmux_input_hangs_example =
    send_tmux_input_hangs accepts_all 1000 [] ctrl_c (λ made c. refl) refl

send_tmux_input-ArePlain_example : ArePlain (send_tmux_input accepts_all 4 [] hi_enter).calls
send_tmux_input-ArePlain_example = send_tmux_input-ArePlain accepts_all 4 [] hi_enter tt
