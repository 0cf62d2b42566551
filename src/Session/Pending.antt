-- ===== src/Session/Pending.antt =====
-- Lists of pending operations: how many are busy, and what their writes write.
use ramses_proxy.Prelude.{◌+◌, ◌≤◌, ◌≡◌, List, [], ◌∷◌, ◌++◌, Bytes, arith}
use ramses_proxy.Packet.{RouterPacket}
use ramses_proxy.AdrTuple.{AddressApi}
use ramses_proxy.Session.{Action, resolve, connect, read_header, read_payload, write, post_failed}
use ramses_proxy.Session.Stream.{busy, Front, WritesFront}

module _ (api : AddressApi) where
  pub busy-append : (xs ys : List (Action api)) → busy api (xs ++ ys) ≡ busy api xs + busy api ys
  busy-append [] ys = omega arith
  busy-append (resolve h p ∷ xs) ys = omega (arith, busy-append xs ys)
  busy-append (connect e r ∷ xs) ys = omega (arith, busy-append xs ys)
  busy-append (write w ∷ xs) ys = omega (arith, busy-append xs ys)
  busy-append (read_header ∷ xs) ys = busy-append xs ys
  busy-append (read_payload n ∷ xs) ys = busy-append xs ys
  busy-append (post_failed ∷ xs) ys = busy-append xs ys

  pub WritesFront-append :
      (queue : List RouterPacket) (xs ys : List (Action api))
      → WritesFront api queue xs
      → WritesFront api queue ys
      → WritesFront api queue (xs ++ ys)
  WritesFront-append queue [] ys h k = k
  WritesFront-append queue (resolve h p ∷ xs) ys w k = WritesFront-append queue xs ys w k
  WritesFront-append queue (connect e r ∷ xs) ys w k = WritesFront-append queue xs ys w k
  WritesFront-append queue (write b ∷ xs) ys w k = (w.0, WritesFront-append queue xs ys w.1 k)
  WritesFront-append queue (read_header ∷ xs) ys w k = WritesFront-append queue xs ys w k
  WritesFront-append queue (read_payload n ∷ xs) ys w k = WritesFront-append queue xs ys w k
  WritesFront-append queue (post_failed ∷ xs) ys w k = WritesFront-append queue xs ys w k

  -- With no busy operation there is no write.
  pub WritesFront-unbusy :
      (queue : List RouterPacket) (xs : List (Action api))
      → busy api xs ≡ 0
      → WritesFront api queue xs
  WritesFront-unbusy queue [] h = tt
  WritesFront-unbusy queue (resolve h p ∷ xs) e = absurd (omega arith)
  WritesFront-unbusy queue (connect d r ∷ xs) e = absurd (omega arith)
  WritesFront-unbusy queue (write w ∷ xs) e = absurd (omega arith)
  WritesFront-unbusy queue (read_header ∷ xs) e = WritesFront-unbusy queue xs e
  WritesFront-unbusy queue (read_payload n ∷ xs) e = WritesFront-unbusy queue xs e
  WritesFront-unbusy queue (post_failed ∷ xs) e = WritesFront-unbusy queue xs e

  -- What a completed operation leaves of the others.
  pub WritesFront-rest :
      (queue : List RouterPacket) (xs : List (Action api)) (a : Action api) (ys : List (Action api))
      → WritesFront api queue (xs ++ (a ∷ ys))
      → WritesFront api queue (xs ++ ys)
  WritesFront-rest queue [] (resolve h p) ys w = w
  WritesFront-rest queue [] (connect d r) ys w = w
  WritesFront-rest queue [] (write b) ys w = w.1
  WritesFront-rest queue [] read_header ys w = w
  WritesFront-rest queue [] (read_payload n) ys w = w
  WritesFront-rest queue [] post_failed ys w = w
  WritesFront-rest queue (resolve h p ∷ xs) a ys w = WritesFront-rest queue xs a ys w
  WritesFront-rest queue (connect d r ∷ xs) a ys w = WritesFront-rest queue xs a ys w
  WritesFront-rest queue (write b ∷ xs) a ys w = (w.0, WritesFront-rest queue xs a ys w.1)
  WritesFront-rest queue (read_header ∷ xs) a ys w = WritesFront-rest queue xs a ys w
  WritesFront-rest queue (read_payload n ∷ xs) a ys w = WritesFront-rest queue xs a ys w
  WritesFront-rest queue (post_failed ∷ xs) a ys w = WritesFront-rest queue xs a ys w

  -- The front that a pending write writes.
  pub Front-pending :
      (queue : List RouterPacket) (xs : List (Action api)) (w : Bytes) (ys : List (Action api))
      → WritesFront api queue (xs ++ (write w ∷ ys))
      → Front api queue w
  Front-pending queue [] w ys h = h.0
  Front-pending queue (resolve h p ∷ xs) w ys f = Front-pending queue xs w ys f
  Front-pending queue (connect d r ∷ xs) w ys f = Front-pending queue xs w ys f
  Front-pending queue (write b ∷ xs) w ys f = Front-pending queue xs w ys f.1
  Front-pending queue (read_header ∷ xs) w ys f = Front-pending queue xs w ys f
  Front-pending queue (read_payload n ∷ xs) w ys f = Front-pending queue xs w ys f
  Front-pending queue (post_failed ∷ xs) w ys f = Front-pending queue xs w ys f

  -- What a handler may start for a session with this queue, once no operation is busy.
  pub record Starts (queue : List RouterPacket) (ops : List (Action api)) : Type 0 where
    pub single : busy api ops ≤ 1
    pub idle : queue ≡ [] → busy api ops ≡ 0
    pub front : WritesFront api queue ops

  -- The invariant of a link whose other operations are not busy.
  pub Inv-after :
      (queue : List RouterPacket) (others ops : List (Action api))
      → busy api others ≡ 0
      → Starts queue ops
      → (busy api (others ++ ops) ≤ 1)
        × (queue ≡ [] → busy api (others ++ ops) ≡ 0)
        × WritesFront api queue (others ++ ops)
  Inv-after queue others ops free st = (
    omega (arith, busy-append others ops, st.single),
    (λ e. omega (arith, busy-append others ops, st.idle e)),
    WritesFront-append queue others ops (WritesFront-unbusy queue others free) st.front,
  )

  -- The operations beside a busy one.
  pub busy-rest :
      (xs : List (Action api)) (a : Action api) (ys : List (Action api))
      → busy api (xs ++ (a ∷ ys)) ≤ 1
      → busy api (a ∷ []) ≡ 1
      → busy api (xs ++ ys) ≡ 0
  busy-rest xs a ys h e =
      omega (arith, busy-append xs (a ∷ ys), busy-append (a ∷ []) ys, busy-append xs ys)

  pub Starts-none :
      (queue : List RouterPacket) (ops : List (Action api)) → busy api ops ≡ 0 → Starts queue ops
  Starts-none queue ops e = record {
    single = omega arith;
    idle = λ _. e;
    front = WritesFront-unbusy queue ops e;
  }

  pub Starts-append :
      (queue : List RouterPacket) (xs ys : List (Action api))
      → Starts queue xs
      → busy api ys ≡ 0
      → Starts queue (xs ++ ys)
  Starts-append queue xs ys st free = record {
    single = omega (arith, busy-append xs ys, st.single);
    idle = λ e. omega (arith, busy-append xs ys, st.idle e);
    front = WritesFront-append queue xs ys st.front (WritesFront-unbusy queue ys free);
  }

  Front-grow :
      (queue : List RouterPacket) (c : RouterPacket) (w : Bytes)
      → Front api queue w
      → Front api (queue ++ (c ∷ [])) w
  Front-grow [] c w f = absurd f
  Front-grow (p ∷ queue) c w f = f

  -- A packet at the end of the queue leaves the front as it is.
  pub WritesFront-grow :
      (queue : List RouterPacket) (c : RouterPacket) (xs : List (Action api))
      → WritesFront api queue xs
      → WritesFront api (queue ++ (c ∷ [])) xs
  WritesFront-grow queue c [] f = tt
  WritesFront-grow queue c (resolve h p ∷ xs) f = WritesFront-grow queue c xs f
  WritesFront-grow queue c (connect d r ∷ xs) f = WritesFront-grow queue c xs f
  WritesFront-grow queue c (write b ∷ xs) f =
      (Front-grow queue c b f.0, WritesFront-grow queue c xs f.1)
  WritesFront-grow queue c (read_header ∷ xs) f = WritesFront-grow queue c xs f
  WritesFront-grow queue c (read_payload n ∷ xs) f = WritesFront-grow queue c xs f
  WritesFront-grow queue c (post_failed ∷ xs) f = WritesFront-grow queue c xs f
