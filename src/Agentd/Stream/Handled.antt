-- ===== src/Agentd/Stream/Handled.antt =====
-- What handleStreamJSONEvent does to the history, as its callers see it.
use agnet.Common.{◌≡◌, refl, ap, ◌∙◌, true, false, ◌||◌, some, String}
use agnet.Common.Text.{◌=s◌}
use agnet.Agentd.EventBuf.{EventBuffer}
use agnet.Agentd.EventBuf.Inv.{IsValid}
use agnet.Agentd.Hub.{Hub}
use agnet.Agentd.Stream.{StreamJsonEvent, Context, Run}
use agnet.Agentd.Stream.Message.{on_message, role_of}
use agnet.Agentd.Stream.Dispatch.{dispatch, handle_stream_json_event}
use agnet.Agentd.Stream.Laws.{buffer_in, Recorded}
use agnet.Agentd.Stream.Recorded.{dispatch-Recorded}
use agnet.Agentd.Stream.Once.{start, on_message_once}

-- An event of the stream of an agent that is known records at most one conversation event: either no
-- buffer changes and the output callback is not called, or one event is appended to the agent's buffer
-- and to no other, and the output callback, where there is one, is called once, with that event and the
-- number it has in the buffer. Of the status callback nothing is said.
pub handle_stream_json_event-Recorded :
    (cx : Context) (hub : Hub) (id : String) (b : EventBuffer) (ev : StreamJsonEvent)
    → buffer_in hub id ≡ some b
    → Recorded cx id b (start hub) (handle_stream_json_event cx hub id ev)
unfolding handle_stream_json_event
handle_stream_json_event-Recorded cx hub id b ev h = dispatch-Recorded cx id b (start hub) h ev

dispatch_user :
    (cx : Context) (id : String) (ev : StreamJsonEvent) (r : Run)
    → ev.kind ≡ "user"
    → dispatch cx id ev r ≡ on_message cx id ev r
unfolding dispatch
dispatch_user cx id ev r e =
    let no_init : (ev.kind =s "init" || ev.kind =s "system") ≡ false =
      ap (λ k. k =s "init" || k =s "system") e in
    let user : (ev.kind =s "user" || ev.kind =s "assistant") ≡ true =
      ap (λ k. k =s "user" || k =s "assistant") e in
    rw (no_init, user) refl

-- A user's event of the stream that is handled again right after it was handled is recorded once: the
-- second time the state stays as it is, and neither the output callback nor the status callback is
-- called.
pub handle_stream_json_event_once :
    (cx : Context) (hub : Hub) (id : String) (b : EventBuffer) (ev : StreamJsonEvent)
    → IsValid b
    → buffer_in hub id ≡ some b
    → ev.kind ≡ "user"
    → role_of ev ≡ "user"
    → handle_stream_json_event cx (handle_stream_json_event cx hub id ev).hub id ev
      ≡ start (handle_stream_json_event cx hub id ev).hub
unfolding handle_stream_json_event
handle_stream_json_event_once cx hub id b ev v h k u = rw (dispatch_user cx id ev (start hub) k) (
    dispatch_user cx id ev (start (on_message cx id ev (start hub)).hub) k
    ∙ on_message_once cx id ev b v u hub h)
