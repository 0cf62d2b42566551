-- ===== src/Session/Order/Channel.antt =====
-- What a session promises for the frames to the F1 server: a channel that takes frames at one end and
-- gives them out at the other.
use ramses_proxy.Prelude.{
  ◌≡◌, refl, sym, subst, ◌∙◌, ap, false, Option, some, List, [], ◌∷◌, ◌++◌, Bytes, map,
}
use mathlib.Core.List.{map-append}
use ramses_proxy.Packet.{RouterPacket, frame}
use ramses_proxy.AdrTuple.{AddressApi, AdrTuple}
use ramses_proxy.Params.{Params}
use ramses_proxy.Session.{Action, write, Session, construct, set_adr_tuple, handle_deliver_tcp}
use ramses_proxy.Session.Stream.{
  Front, WritesFront, Link, Step, add, resolves, connects, writes, write_fails, reads_header,
  reads_payload, posts, Reach, here, next, Inv,
}
use ramses_proxy.Session.Pending.{Front-pending}
use ramses_proxy.Session.Handlers.{
  Holds-some, Keeps, Adds, handle_resolve-Keeps, handle_connection-Keeps, handle_deliver_tcp-Keeps,
  handle_deliver_tcp_error, add_router_packet-Adds, handle_read_header-Reads,
  handle_read_payload-Reads,
}
use ramses_proxy.Session.Completions.{queue-nonempty}
use ramses_proxy.Session.Order.{fresh, Reach-Inv}

-- The frames that were given out and those in the channel.
pub record Channel : Type 0 where
  pub given : List (Option Bytes)
  pub inside : List (Option Bytes)

-- What a step shows: a frame that is put in, a frame that is given out, or nothing.
pub data Label : Type 0 where
  puts : Option Bytes → Label
  gives : Option Bytes → Label
  silent : Label

pub data Move (c d : Channel) : Label → Type 0 where
  put : (w : Option Bytes) → d ≡ record c { inside = c.inside ++ (w ∷ []) } → Move c d (puts w)
  give :
      (w : Option Bytes) (rest : List (Option Bytes))
      → c.inside ≡ w ∷ rest
      → d ≡ record { given = c.given ++ (w ∷ []); inside = rest }
      → Move c d (gives w)
  stay : d ≡ c → Move c d silent

-- The moves with their labels, the last first.
pub data Moves (c : Channel) : List Label → Channel → Type 0 where
  start : Moves c [] c
  move :
      {d e : Channel} {labels : List Label} {a : Label}
      → Moves c labels d
      → Move d e a
      → Moves c (a ∷ labels) e

module _ (api : AddressApi) (params : Option Params) where
  -- What the link shows of the channel.
  abbrev pub view : Link api → Channel
  view l = record { given = l.written; inside = map frame l.session.queue }

  -- What the session promises of a step.
  abbrev pub label : {l m : Link api} → Step api params l m → Label
  label (add raw p s ops wr built e eq) = puts (frame p)
  label (resolves h p error es xs ys s ops e returns eq) = silent
  label (connects d es error xs ys s ops e returns eq) = silent
  label (writes w xs ys s ops e returns eq) = gives (some w)
  label (write_fails w xs ys s ops e returns eq) = silent
  label (reads_header bytes error packet xs ys s ops e came returns eq) = silent
  label (reads_payload n bytes error packet xs ys s ops delivery e came returns eq) = silent
  label (posts xs ys e eq) = silent

  -- The labels of the steps to a state, the last first.
  abbrev pub labels : {l m : Link api} → Reach api params l m → List Label
  labels here = []
  labels (next r step) = label step ∷ labels r

  stays :
      (l m : Link api)
      → m.written ≡ l.written
      → m.session.queue ≡ l.session.queue
      → Move (view l) (view m) silent
  stays l m w q = stay (λ i. record { given = w i; inside = map frame (q i) })

  writes-Move :
      (l : Link api) (w : Bytes) (xs ys : List (Action api)) (t : Session api)
      (ops : List (Action api))
      → Inv api l
      → l.pending ≡ xs ++ (write w ∷ ys)
      → handle_deliver_tcp api params false l.session ≡ some (t, ops)
      → Move
          (view l)
          (record { given = l.written ++ (some w ∷ []); inside = map frame t.queue })
          (gives (some w))
  writes-Move l w xs ys t ops v e returns = go l.session.queue refl (
      Front-pending api l.session.queue xs w ys (subst (WritesFront api l.session.queue) e v.front))
    where
      go :
          (queue : List RouterPacket)
          → l.session.queue ≡ queue
          → Front api queue w
          → Move
              (view l)
              (record { given = l.written ++ (some w ∷ []); inside = map frame t.queue })
              (gives (some w))
      go [] eq f = absurd f
      go (p ∷ rest) eq f =
          let k =
            Holds-some api (Keeps api rest) _ t ops
              (handle_deliver_tcp-Keeps api params p rest l.session eq) returns in
          give (some w) (map frame rest) (ap (map frame) eq ∙ ap (λ x. x ∷ map frame rest) f)
            (ap (λ q. record { given = l.written ++ (some w ∷ []); inside = map frame q }) k.0)

  Step-Move :
      {l m : Link api}
      → Inv api l
      → (step : Step api params l m) → Move (view l) (view m) (label step)
  Step-Move {l} {m} v (add raw p s ops wr built e eq) =
      let (c, same, grows, _, _) =
        Holds-some api (Adds api l.session p) _ s ops
          (add_router_packet-Adds api params raw p l.session wr built) e in
      put (frame p) (
        ap view eq
        ∙ ap (λ q. record { given = l.written; inside = map frame q }) grows
        ∙ ap (λ z. record { given = l.written; inside = z })
            (map-append frame l.session.queue (c ∷ [])
              ∙ ap (λ x. map frame l.session.queue ++ (x ∷ [])) same))
  Step-Move {l} {m} v (resolves h p error es xs ys s ops e returns eq) =
      let k =
        Holds-some api (Keeps api l.session.queue) _ s ops
          (handle_resolve-Keeps api error es l.session
            (queue-nonempty api params l xs _ ys v e refl))
          returns in
      stays l m (ap (λ z. z.written) eq) (ap (λ z. z.session.queue) eq ∙ k.0)
  Step-Move {l} {m} v (connects d es error xs ys s ops e returns eq) =
      let k =
        Holds-some api (Keeps api l.session.queue) _ s ops
          (handle_connection-Keeps api params error es l.session
            (queue-nonempty api params l xs _ ys v e refl))
          returns in
      stays l m (ap (λ z. z.written) eq) (ap (λ z. z.session.queue) eq ∙ k.0)
  Step-Move {l} {m} v (writes w xs ys s ops e returns eq) =
      subst (λ z. Move (view l) (view z) (gives (some w))) (sym eq)
        (writes-Move l w xs ys s ops v e returns)
  Step-Move {l} {m} v (write_fails w xs ys s ops e returns eq) =
      let k =
        Holds-some api (Keeps api l.session.queue) _ s ops
          (handle_deliver_tcp_error api params l.session) returns in
      stays l m (ap (λ z. z.written) eq) (ap (λ z. z.session.queue) eq ∙ k.0)
  Step-Move {l} {m} v (reads_header bytes error packet xs ys s ops e came returns eq) =
      let k = handle_read_header-Reads api error _ _ s ops returns in
      stays l m (ap (λ z. z.written) eq) (ap (λ z. z.session.queue) eq ∙ k.0)
  Step-Move {l} {m} v (reads_payload n bytes error packet xs ys s ops delivery e came returns eq) =
      let k = handle_read_payload-Reads api error _ _ s ops delivery returns in
      stays l m (ap (λ z. z.written) eq) (ap (λ z. z.session.queue) eq ∙ k.0)
  Step-Move {l} {m} v (posts xs ys e eq) =
      stays l m (ap (λ z. z.written) eq) (ap (λ z. z.session.queue) eq)

  -- A session implements the channel: whatever a new session goes through, the empty channel can show
  -- the same, step by step. A packet that is added puts its frame in, at the end; a write that
  -- completes without an error gives out its frame, which is the first inside; every other step,
  -- errors included, is silent and leaves the channel as it is; and the frames of the completed writes
  -- and those in the session's queue are what the channel has given out and has inside then.
  pub Reach-Moves :
      (adr : AdrTuple api) {l : Link api} (r : Reach api params (fresh api params adr) l)
      → Moves (record { given = []; inside = [] }) (labels r) (view l)
  unfolding set_adr_tuple construct
  Reach-Moves adr here = start
  Reach-Moves adr (next r step) =
      move (Reach-Moves adr r) (Step-Move (Reach-Inv api params adr r) step)
