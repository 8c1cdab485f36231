-- ===== src/Frontend/Socket.antt =====
-- The browser's WebSocket client, frontend/src/services/websocketClient.js, with the sockets that
-- the browser keeps for it. A call of `socket.close()` ends a socket at once, and its `onclose`
-- comes later; a socket that was closed never opens.
use ai_worker_platform.Common.{
  ℕ, Bool, true, false, not, Option, none, some, List, [], ◌∷◌, ◌+◌, ◌&&◌, if◌then◌else◌, is_some,
  ◌||◌,
}
use ai_worker_platform.Common.Sets.{has, remove, push}

pub data ConnectionStatus : Type 0 where
  idle connecting connected error disconnected reconnecting : ConnectionStatus

-- The client's fields, the last status it gave out (`idle` before the first), and the browser's sockets: those that are not
-- closed, those of them that are open, those whose `onclose` is still to come, and what was sent:
-- on which socket, for which job. Sockets are numbered in the order of their creation.
pub record Client : Type 0 where
  pub socket : Option ℕ
  pub job_id : Option ℕ
  pub reconnect_timer : Bool
  pub closed_by_user : Bool
  pub status : ConnectionStatus
  pub alive : List ℕ
  pub ready : List ℕ
  pub closing : List ℕ
  pub created : ℕ
  pub sent : List (ℕ × ℕ)

-- constructor
unfoldable pub initial : Client
initial = record {
  socket = none;
  job_id = none;
  reconnect_timer = false;
  closed_by_user = false;
  status = idle;
  alive = [];
  ready = [];
  closing = [];
  created = 0;
  sent = [];
}

-- open
unfoldable pub open_socket : Client → Client
open_socket c =
    if is_some c.job_id
    then record c {
      status = connecting;
      socket = some c.created;
      alive = push c.created c.alive;
      created = c.created + 1;
    }
    else c

-- `this.socket.close()`
unfoldable pub close_socket : Option ℕ → Client → Client
close_socket none c = c
close_socket (some s) c =
    if has s c.alive
    then record c {
      alive = remove s c.alive;
      ready = remove s c.ready;
      closing = push s c.closing;
      socket = none;
    }
    else record c { socket = none }

-- close
unfoldable pub close : Client → Client
unfolding close_socket
close c = close_socket c.socket (record c { closed_by_user = true; reconnect_timer = false })

-- connect
unfoldable pub connect : ℕ → Client → Client
unfolding close open_socket
connect job_id c = open_socket (record (close c) { job_id = some job_id; closed_by_user = false })

-- scheduleReconnect
unfoldable pub schedule_reconnect : Client → Client
schedule_reconnect c =
    if c.reconnect_timer then c else record c { status = reconnecting; reconnect_timer = true }

-- The timer's callback.
unfoldable pub fire_timer : Client → Client
unfolding open_socket
fire_timer c = if c.reconnect_timer then open_socket (record c { reconnect_timer = false }) else c

-- `this.socket.send` of the subscription: a socket that is not open yet refuses it.
unfoldable pub send_subscription : Option ℕ → Option ℕ → Client → Client
send_subscription none job_id c = c
send_subscription (some s) none c = c
send_subscription (some s) (some j) c =
    if has s c.ready then record c { sent = (s, j) ∷ c.sent } else c

-- onopen, of a socket that is not closed
unfoldable pub on_open : ℕ → Client → Client
unfolding send_subscription
on_open s c =
    if has s c.alive
    then send_subscription c.socket c.job_id
        (record c { status = connected; ready = push s c.ready })
    else c

-- onerror
unfoldable pub on_error : Client → Client
on_error c = record c { status = error }

-- onclose, of the socket `s`: it is the client's own or one of before.
unfoldable pub on_close : ℕ → Client → Client
unfolding schedule_reconnect
on_close s c =
    let gone : Client = record c {
      status = disconnected;
      alive = remove s c.alive;
      ready = remove s c.ready;
      closing = remove s c.closing;
    } in
    if has s c.alive || has s c.closing
    then if not c.closed_by_user && is_some c.job_id then schedule_reconnect gone else gone
    else c

-- What the browser does by itself: a socket opens, fails or ends, or the timer fires.
pub data BrowserEvent : Type 0 where
  opened ended : ℕ → BrowserEvent
  failed timer_fired : BrowserEvent

unfoldable pub react : BrowserEvent → Client → Client
unfolding on_open on_close on_error fire_timer
react (opened s) c = on_open s c
react (ended s) c = on_close s c
react failed c = on_error c
react timer_fired c = fire_timer c

unfoldable pub react_all : List BrowserEvent → Client → Client
react_all [] c = c
react_all (e ∷ es) c = react_all es (react e c)
