-- ===== src/Session/Handlers.antt =====
-- What each handler of a session keeps of its queue, and what it starts.
mod Sending
use ramses_proxy.Prelude.{
  ℕ, ◌≡◌, ◌≢◌, ◌⊎◌, inl, inr, refl, sym, subst, Bool, true, false, not, ◌&&◌, Option, none, some,
  List, [], ◌∷◌, ◌++◌, Bytes, length, leb, arith, Bool-cases, Option-cases, if◌then◌else◌, ◌>>=◌,
}
use mathlib.Core.List.{concat-ne-nil}
use ramses_proxy.Packet.{RouterPacket, copy_construct, frame}
use ramses_proxy.Packet.Copying.{copy_construct_same_frame}
use ramses_proxy.AdrTuple.{AddressApi}
use ramses_proxy.Params.{Params}
use ramses_proxy.Session.{
  Endpoints, Action, read_header, Session, start, close_session, start_read_from_tcp,
  deliver_to_tcp_peer, add_router_packet, handle_connection, handle_resolve, handle_read_header,
  handle_read_payload, handle_deliver_tcp, write_front, retry, resolved, deliver_rest,
  accept_header, accept_payload, is_empty, Result,
}
use ramses_proxy.Session.Stream.{IsBuilt, busy, Front}
use ramses_proxy.Session.Pending.{Starts, Starts-none, Starts-append}
pub use ramses_proxy.Session.Handlers.Sending.{
  Holds, Holds-map, Holds-some, Keeps, deliver-Keeps, close_session-Keeps, handle_resolve-Keeps,
  handle_connection-Keeps, handle_deliver_tcp-Keeps, handle_deliver_tcp_error,
}

module _ (api : AddressApi) where
  pub copy-frame :
      (raw : Bytes) (p c : RouterPacket)
      → length raw ≡ 1032
      → IsBuilt p
      → copy_construct raw p ≡ some c
      → frame c ≡ frame p
  copy-frame raw p c wr built e = copy_construct_same_frame raw p c wr built.whole built.filled e

  -- A packet that is added goes to the end of the queue; it starts an operation only if it is the
  -- only one.
  abbrev pub Adds : Session api → RouterPacket → Session api → List (Action api) → Type 0
  Adds s p t ops =
      (c : RouterPacket) × (frame c ≡ frame p)
      × (t.queue ≡ s.queue ++ (c ∷ []))
      × Starts api t.queue ops
      × (s.queue ≢ [] → ops ≡ [])

  pub add_router_packet-Adds :
      (params : Option Params) (raw : Bytes) (p : RouterPacket) (s : Session api)
      → length raw ≡ 1032
      → IsBuilt p
      → Holds api (Adds s p) (add_router_packet api params raw p s)
  unfolding add_router_packet
  add_router_packet-Adds params raw p s wr built = elim (Option-cases (copy_construct raw p)) [
    | inl e ↦ rw e tt
    | inr (c, e) ↦ rw e (go c (copy-frame raw p c wr built e) s.queue refl)
  ]
    where
      go :
          (c : RouterPacket)
          → frame c ≡ frame p
          → (queue : List RouterPacket) → s.queue ≡ queue
          → Holds api (Adds s p) (
              if is_empty queue
              then deliver_to_tcp_peer api params (record s { queue = s.queue ++ (c ∷ []) })
              else some (record s { queue = s.queue ++ (c ∷ []) }, []))
      go c same [] e =
          Holds-map api (Keeps api (s.queue ++ (c ∷ []))) (Adds s p)
            (λ t ops k. (c, same, k.0, k.1, λ h. absurd (h e))) _
            (deliver-Keeps api params (record s { queue = s.queue ++ (c ∷ []) })
              (inr (concat-ne-nil c s.queue)))
      go c same (q ∷ rest) e =
          (c, same, refl, Starts-none api (s.queue ++ (c ∷ [])) [] refl, λ h. refl)

  -- What the reads from the F1 server leave alone.
  abbrev pub Reads : Session api → Session api → List (Action api) → Type 0
  Reads s t ops = (t.queue ≡ s.queue) × (busy api ops ≡ 0)

  pub handle_read_header-Reads :
      (error : Bool) (n : ℕ) (s t : Session api) (ops : List (Action api))
      → handle_read_header api error n s ≡ some (t, ops)
      → Reads s t ops
  unfolding handle_read_header accept_header close_session
  handle_read_header-Reads error n s t ops e = ground arith

  pub handle_read_payload-Reads :
      (error : Bool) (n : ℕ) (s t : Session api) (ops : List (Action api))
      (delivery : Option RouterPacket)
      → handle_read_payload api error n s ≡ some (t, ops, delivery)
      → Reads s t ops
  unfolding handle_read_payload accept_payload
  handle_read_payload-Reads error n s t ops delivery e = ground arith
