-- ===== src/Server/Run.antt =====
-- The relay at work: a step is the completion of one of the operations that are pending, in any order
-- that the network chooses, with its whole handler. It leaves out the operation that has completed.
pub mod Linked
pub mod Quiet
pub mod Completing
pub mod Uplink
pub mod Sessions
pub mod Reading
pub mod Receiving
pub mod Dispatching
pub mod Peers
pub mod Sending
pub mod Handing
pub mod Smooth
pub mod Stalling
use ramses_proxy.Prelude.{
  ℕ, suc, ◌+◌, ◌≤◌, ◌≡◌, Bool, true, false, Option, some, List, [], ◌∷◌, ◌++◌, Bytes, length,
  get_elem?, ◌==◌, if◌then◌else◌,
}
use ramses_proxy.Outcome.{Outcome, ok}
use ramses_proxy.Packet.{RouterPacket, arrive}
use ramses_proxy.AdrTuple.{AddressApi}
use ramses_proxy.Params.{Params}
use ramses_proxy.Prelude.{none, not, ◌||◌, ltb}
use ramses_proxy.Outcome.{thrown, fault}
use ramses_proxy.Packet.{frame, build_packet}
use ramses_proxy.AdrTuple
use ramses_proxy.AdrTuple.{AdrTuple, udp, to_string}
use ramses_proxy.Server.{session_of}
use ramses_proxy.Session.{
  Session, Action, Endpoint, Endpoints, resolve, connect, write, read_header, read_payload,
  post_failed, handle_resolve, handle_connection, handle_deliver_tcp, handle_read_header,
}
use ramses_proxy.Server.{
  Server, UdpEndpoint, Pending, of_session, receive_from, send_to, update, handle_receive,
  handle_connection_failed, handle_deliver_to_udp_peer, handle_read_payload, store_datagram,
}

module _ (api : AddressApi) where
  -- The operations of session i.
  abbrev pub own : ℕ → List (Pending api) → List (Action api)
  own i [] = []
  own i (of_session j a ∷ ops) = let rest = own i ops in if i == j then a ∷ rest else rest
  own i (receive_from ∷ ops) = own i ops
  own i (send_to e b ∷ ops) = own i ops

  -- How many receives are pending.
  abbrev pub receives : List (Pending api) → ℕ
  receives [] = 0
  receives (of_session j a ∷ ops) = receives ops
  receives (receive_from ∷ ops) = suc (receives ops)
  receives (send_to e b ∷ ops) = receives ops

  -- The completion of an operation that concerns its session only takes s to u and starts ops.
  pub data Completes (params : Option Params) (s u : Session api) (ops : List (Action api))
      : Action api → Type 0 where
    resolves :
        (host port : Bytes) (error : Bool) (es : Endpoints api)
        → handle_resolve api error es s ≡ some (u, ops)
        → Completes params s u ops (resolve host port)
    connects :
        (e : Endpoint api) (es : Endpoints api) (error : Bool)
        → handle_connection api params error es s ≡ some (u, ops)
        → Completes params s u ops (connect e es)
    writes :
        (w : Bytes) (error : Bool)
        → handle_deliver_tcp api params error s ≡ some (u, ops)
        → Completes params s u ops (write w)
    reads_header :
        (error : Bool) (bytes : Bytes) (packet : RouterPacket)
        → arrive 0 bytes s.from_tcp ≡ some packet
        → handle_read_header api error (length bytes) (record s { from_tcp = packet })
          ≡ some (u, ops)
        → Completes params s u ops read_header

  -- A receive stores the bytes of a datagram, as many as its buffer has room for, before its handler
  -- runs.
  pub data Step (st t : Server api) (xs ys : List (Pending api)) : Pending api → Type 0 where
    received :
        (remote : UdpEndpoint api) (raw datagram : Bytes) (error : Bool)
        → length raw ≡ 1032
        → length datagram ≤ length st.recv_buffer.bytes
        → handle_receive api remote raw error
            (length datagram)
            (store_datagram api datagram (record st { pending = xs ++ ys }))
          ≡ ok t
        → Step st t xs ys receive_from
    sent :
        (e : UdpEndpoint api) (b : Bytes) (error : Bool)
        → handle_deliver_to_udp_peer api error (record st { pending = xs ++ ys }) ≡ ok t
        → Step st t xs ys (send_to e b)
    given_up :
        (i : ℕ)
        → handle_connection_failed api i (record st { pending = xs ++ ys }) ≡ ok t
        → Step st t xs ys (of_session i post_failed)
    payload_read :
        (i m : ℕ) (raw bytes : Bytes) (error : Bool)
        → handle_read_payload api i raw bytes error (record st { pending = xs ++ ys }) ≡ ok t
        → Step st t xs ys (of_session i (read_payload m))
    completed :
        (i : ℕ) (a : Action api) (s u : Session api) (ops : List (Action api))
        → get_elem? st.sessions i ≡ some s
        → Completes st.params s u ops a
        → t ≡ update api i (u, ops) (record st { pending = xs ++ ys })
        → Step st t xs ys (of_session i a)

  pub data Reach (st : Server api) : Server api → Type 0 where
    here : Reach st st
    next :
        {t u : Server api} (xs ys : List (Pending api)) (a : Pending api)
        → Reach st t
        → t.pending ≡ xs ++ (a ∷ ys)
        → Step t u xs ys a
        → Reach st u

  -- Whether a datagram goes to session j, by what session_of finds; a new session is the m-th.
  abbrev pub goes_to : ℕ → Outcome (Option ℕ) → ℕ → Bool
  goes_to m (ok none) j = j == m
  goes_to m (ok (some i)) j = j == i
  goes_to m thrown j = false
  goes_to m fault j = false

  abbrev pub frame_of : Option (Option RouterPacket) → List (Option Bytes)
  frame_of none = []
  frame_of (some none) = []
  frame_of (some (some p)) = frame p ∷ []

  -- The frame, if any, of the datagram that a receive has stored for session j.
  abbrev pub dispatched : UdpEndpoint api → Bool → ℕ → Server api → ℕ → List (Option Bytes)
  dispatched remote error n st j =
      let adr = AdrTuple.construct_from api udp remote.address remote.port in
      if not error || ltb 0 n
      then (if goes_to (length st.sessions) (session_of api st.sessions st.udp_sessions adr) j
          then frame_of (build_packet (to_string api adr) st.recv_buffer.bytes n)
          else [])
      else []

  -- The frames of the packets that were added to a session, and those of its completed writes.
  abbrev pub History : Type 0
  History = List (Option Bytes) × List (Option Bytes)

  -- The histories fs with the frames of `more` added.
  abbrev pub extended : (ℕ → History) → (ℕ → List (Option Bytes)) → ℕ → History
  extended fs more j = ((fs j).0 ++ more j, (fs j).1)

  -- With the frames ws written by session i.
  abbrev pub wrote : (ℕ → History) → ℕ → List (Option Bytes) → ℕ → History
  wrote fs i ws j = if j == i then ((fs j).0, (fs j).1 ++ ws) else fs j

  -- The frame that a write without an error has written.
  abbrev pub done :
      {params : Option Params} {s u : Session api} {ops : List (Action api)} {a : Action api}
      → Completes params s u ops a
      → List (Option Bytes)
  done (resolves host port error es r) = []
  done (connects e es error r) = []
  done (writes w true r) = []
  done (writes w false r) = some w ∷ []
  done (reads_header error bytes packet came r) = []

  abbrev pub grows :
      {st t : Server api} {xs ys : List (Pending api)} {a : Pending api}
      → (ℕ → History)
      → Step st t xs ys a
      → ℕ
      → History
  grows {st} fs (received remote raw datagram error wr h r) =
      extended fs (dispatched remote error (length datagram) (store_datagram api datagram st))
  grows fs (sent e b error r) = fs
  grows fs (given_up i r) = fs
  grows fs (payload_read i m raw bytes error r) = fs
  grows fs (completed i a s u ops at c eq) = wrote fs i (done c)

  -- The history of each session: the frames of the datagrams that came for it, and those of its
  -- completed writes.
  abbrev pub history : {st t : Server api} → Reach st t → ℕ → History
  history here = λ j. ([], [])
  history (next xs ys a r e step) = grows (history r) step
