-- ===== src/Session/Stream.antt =====
-- The way of the datagrams to the F1 server. A Link is one session with the operations that it has
-- started and that have not completed; a step is a datagram that the manager adds, or the completion
-- of one of those operations, in any order that the network chooses.
use ramses_proxy.Prelude.{
  ◌+◌, ℕ, suc, ◌≤◌, ◌<◌, ◌≡◌, Bool, true, false, Option, some, List, [], ◌∷◌, ◌++◌, Bytes, map,
  length,
}
use ramses_proxy.Packet.{RouterPacket, IsWhole, frame, arrive}
use ramses_proxy.AdrTuple.{AddressApi}
use ramses_proxy.Params.{Params}
use ramses_proxy.Session.{
  Endpoint, Endpoints, Action, resolve, connect, read_header, read_payload, write, post_failed,
  Session, add_router_packet, handle_connection, handle_resolve, handle_read_header,
  handle_read_payload, handle_deliver_tcp,
}

-- A packet as build_packet leaves it.
pub record IsBuilt (p : RouterPacket) : Type 0 where
  pub whole : IsWhole p
  pub filled : 0 < p.payload_length

module _ (api : AddressApi) where
  -- The operations of which a session has one at most: connecting and writing.
  abbrev pub busy : List (Action api) → ℕ
  busy [] = 0
  busy (resolve h p ∷ ops) = suc (busy ops)
  busy (connect e r ∷ ops) = suc (busy ops)
  busy (write w ∷ ops) = suc (busy ops)
  busy (read_header ∷ ops) = busy ops
  busy (read_payload n ∷ ops) = busy ops
  busy (post_failed ∷ ops) = busy ops

  -- The frame at the front of the queue is w.
  abbrev pub Front : List RouterPacket → Bytes → Type 0
  Front [] w = ⊥
  Front (p ∷ queue) w = frame p ≡ some w

  -- Every write that has not completed writes the front of the queue.
  abbrev pub WritesFront : List RouterPacket → List (Action api) → Type 0
  WritesFront queue [] = Unit {0}
  WritesFront queue (resolve h p ∷ ops) = WritesFront queue ops
  WritesFront queue (connect e r ∷ ops) = WritesFront queue ops
  WritesFront queue (write w ∷ ops) = Front queue w × WritesFront queue ops
  WritesFront queue (read_header ∷ ops) = WritesFront queue ops
  WritesFront queue (read_payload n ∷ ops) = WritesFront queue ops
  WritesFront queue (post_failed ∷ ops) = WritesFront queue ops

  -- How often close_session was called.
  abbrev pub closings : List (Action api) → ℕ
  closings [] = 0
  closings (resolve h p ∷ ops) = closings ops
  closings (connect e r ∷ ops) = closings ops
  closings (write w ∷ ops) = closings ops
  closings (read_header ∷ ops) = closings ops
  closings (read_payload n ∷ ops) = closings ops
  closings (post_failed ∷ ops) = suc (closings ops)

  pub record Link : Type 0 where
    pub session : Session api
    pub pending : List (Action api)
    pub written : List (Option Bytes)
    pub added : List (Option Bytes)
    pub closed : ℕ

  -- What a handler makes of the link: its session and what it starts.
  abbrev pub after :
      Link → List (Action api) → Session api → List (Action api) → List (Option Bytes) → Link
  after l rest s started written = record l {
    session = s;
    pending = rest ++ started;
    written = written;
    closed = l.closed + closings started;
  }

  module _ (params : Option Params) where
    -- Above each constructor's result stand the pending operation and the handler's result.
    pub data Step (l m : Link) : Type 0 where
      add :
          (raw : Bytes) (p : RouterPacket) (s : Session api) (ops : List (Action api))
          → length raw ≡ 1032
          → IsBuilt p
          → add_router_packet api params raw p l.session ≡ some (s, ops)
          → m ≡ record (after l l.pending s ops l.written) { added = l.added ++ (frame p ∷ []) }
          → Step l m
      resolves :
          (h p : Bytes) (error : Bool) (es : Endpoints api) (xs ys : List (Action api))
          (s : Session api) (ops : List (Action api))
          → l.pending ≡ xs ++ (resolve h p ∷ ys)
          → handle_resolve api error es l.session ≡ some (s, ops)
          → m ≡ after l (xs ++ ys) s ops l.written
          → Step l m
      connects :
          (e : Endpoint api) (es : Endpoints api) (error : Bool) (xs ys : List (Action api))
          (s : Session api) (ops : List (Action api))
          → l.pending ≡ xs ++ (connect e es ∷ ys)
          → handle_connection api params error es l.session ≡ some (s, ops)
          → m ≡ after l (xs ++ ys) s ops l.written
          → Step l m
      writes :
          (w : Bytes) (xs ys : List (Action api)) (s : Session api) (ops : List (Action api))
          → l.pending ≡ xs ++ (write w ∷ ys)
          → handle_deliver_tcp api params false l.session ≡ some (s, ops)
          → m ≡ after l (xs ++ ys) s ops (l.written ++ (some w ∷ []))
          → Step l m
      write_fails :
          (w : Bytes) (xs ys : List (Action api)) (s : Session api) (ops : List (Action api))
          → l.pending ≡ xs ++ (write w ∷ ys)
          → handle_deliver_tcp api params true l.session ≡ some (s, ops)
          → m ≡ after l (xs ++ ys) s ops l.written
          → Step l m
      reads_header :
          (bytes : Bytes) (error : Bool) (packet : RouterPacket) (xs ys : List (Action api))
          (s : Session api) (ops : List (Action api))
          → l.pending ≡ xs ++ (read_header ∷ ys)
          → arrive 0 bytes l.session.from_tcp ≡ some packet
          → handle_read_header api error (length bytes) (record (l.session) { from_tcp = packet })
            ≡ some (s, ops)
          → m ≡ after l (xs ++ ys) s ops l.written
          → Step l m
      reads_payload :
          (n : ℕ) (bytes : Bytes) (error : Bool) (packet : RouterPacket) (xs ys : List (Action api))
          (s : Session api) (ops : List (Action api)) (delivery : Option RouterPacket)
          → l.pending ≡ xs ++ (read_payload n ∷ ys)
          → arrive 4 bytes l.session.from_tcp ≡ some packet
          → handle_read_payload api error (length bytes) (record (l.session) { from_tcp = packet })
            ≡ some (s, ops, delivery)
          → m ≡ after l (xs ++ ys) s ops l.written
          → Step l m
      posts :
          (xs ys : List (Action api))
          → l.pending ≡ xs ++ (post_failed ∷ ys)
          → m ≡ after l (xs ++ ys) l.session [] l.written
          → Step l m

    pub data Reach (l : Link) : Link → Type 0 where
      here : Reach l l
      next : {m n : Link} → Reach l m → Step m n → Reach l n

  pub record Inv (l : Link) : Type 0 where
    pub order : l.written ++ map frame l.session.queue ≡ l.added
    pub single : busy l.pending ≤ 1
    pub idle : l.session.queue ≡ [] → busy l.pending ≡ 0
    pub front : WritesFront l.session.queue l.pending
