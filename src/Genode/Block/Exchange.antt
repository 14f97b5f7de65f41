-- ===== src/Genode/Block/Exchange.antt =====
-- A block client and a block server at the two ends of a packet stream.
use mathlib.Core.List.{append-nil, append_assoc}
use ada_interfaces.Base.{
  ℕ, zero, suc, ◌≡◌, ◌≤◌, refl, Bool, true, Option, none, some, List, [], ◌∷◌, ◌++◌, map, length,
  length-map, take, take_all, ap, ap₂, ◌∙◌, sym, arith, ℤ, of_bool, is_nonzero, Proc, pure, ◌>>=◌,
  ◌>>◌,
}
use ada_interfaces.Genode.Block.Client
use ada_interfaces.Genode.Block.Client.{Client, Packet, Response, enqueue, update_response_queue}
use ada_interfaces.Genode.Block.Server
use ada_interfaces.Genode.Block.Server.{Server, Request}
use ada_interfaces.Genode.Block.Server.Stream.{StreamLaws}
use ada_interfaces.Genode.Block.Server.Serving.{serve_all, serve_all-acked, answered}

-- What Genode's packet stream does between device `d` of a client and root `p` of a server: a
-- packet that is submitted arrives as a request, and an acknowledgement comes back with the tag of
-- its packet and its success, oldest first.
pub record WireLaws {W : Type 0} (ck : Client.Calls W) (sk : Server.Calls W) (t : StreamLaws sk)
    (d p : ℕ) : Type 0 where
  pub request_of : Packet → Request
  pub tag_of : Request → ℕ
  pub tag_kept : (x : Packet) (b : Bool) → tag_of (record (request_of x) { success = b }) ≡ x.tag
  pub submitted :
      (x : Packet) (w : W)
      → (t.pending p (ck.submit_packet (some d) x w).1 ≡ t.pending p w ++ (request_of x ∷ []))
        × (t.slots p (ck.submit_packet (some d) x w).1 ≡ t.slots p w)
        × (t.acked p (ck.submit_packet (some d) x w).1 ≡ t.acked p w)
  pub some_acked :
      (r : Request) (rs : List Request) (w : W)
      → t.acked p w ≡ r ∷ rs
      → ((ck.ack_avail (some d) w).0 ≡ true) × (t.acked p (ck.ack_avail (some d) w).1 ≡ r ∷ rs)
  pub received :
      (r : Request) (rs : List Request) (w : W)
      → t.acked p w ≡ r ∷ rs
      → ((ck.get_acked_packet (some d) w).0.tag ≡ tag_of r)
        × ((ck.get_acked_packet (some d) w).0.success ≡ r.success)
        × (t.acked p (ck.get_acked_packet (some d) w).1 ≡ rs)

-- The responses with one more in front, if there was one.
unfoldable pub keep : Option (ℕ × ℤ) → List (ℕ × ℤ) → List (ℕ × ℤ)
keep none rs = rs
keep (some r) rs = r ∷ rs

module _ {W : Type 0} (ck : Client.Calls W) (client : Client) where
  -- A client enqueues packets, one after the other.
  unfoldable pub enqueue_all : List Packet → Proc W (Unit {0})
  enqueue_all [] = pure tt
  enqueue_all (x ∷ xs) = do enqueue ck client x; enqueue_all xs

  -- A client asks `n` times for a response, and keeps those that there are.
  unfoldable pub collect : ℕ → Proc W (List (ℕ × ℤ))
  unfolding keep
  collect zero = pure []
  collect (suc n) = do
    r ← update_response_queue ck client
    rest ← collect n
    pure (keep r.answer rest)

module _ {W : Type 0} (ck : Client.Calls W) (sk : Server.Calls W) (t : StreamLaws sk) (d p : ℕ)
    (l : WireLaws ck sk t d p) (client : Client) (server : Server) (there : client.device ≡ some d)
    (here : server.session ≡ some p) where
  enqueue_all-pending :
      (xs : List Packet) (w : W)
      → (t.pending p (enqueue_all ck client xs w).1 ≡ t.pending p w ++ map l.request_of xs)
        × (t.slots p (enqueue_all ck client xs w).1 ≡ t.slots p w)
        × (t.acked p (enqueue_all ck client xs w).1 ≡ t.acked p w)
  unfolding enqueue_all enqueue
  enqueue_all-pending [] w = (sym (append-nil _), refl, refl)
  enqueue_all-pending (x ∷ xs) w =
      let s = l.submitted x w in
      let rest = enqueue_all-pending xs (ck.submit_packet (some d) x w).1 in
      rw there (
        rest.0
            ∙ ap (λ q. q ++ map l.request_of xs) s.0
            ∙ append_assoc (t.pending p w) (l.request_of x ∷ []) (map l.request_of xs),
        rest.1 ∙ s.1,
        rest.2 ∙ s.2,
      )

  -- The response for a request.
  abbrev pub response : Request → ℕ × ℤ
  response r = (l.tag_of r, of_bool r.success)

  collect-acked :
      (n : ℕ) (rs : List Request) (w : W)
      → length rs ≡ n
      → t.acked p w ≡ rs
      → ((collect ck client n w).0 ≡ map response rs) × (t.acked p (collect ck client n w).1 ≡ [])
  unfolding collect keep update_response_queue
  collect-acked zero [] w h e = (refl, e)
  collect-acked zero (r ∷ rs) w h e = absurd (omega arith)
  collect-acked (suc n) [] w h e = absurd (omega arith)
  collect-acked (suc n) (r ∷ rs) w h e =
      let a = l.some_acked r rs w e in
      let g = l.received r rs (ck.ack_avail (some d) w).1 a.1 in
      let w' = (ck.get_acked_packet (some d) (ck.ack_avail (some d) w).1).1 in
      let rest = collect-acked n rs w' (omega arith) g.2 in
      rw (there, a.0) (rw (g.0, g.1, rest.0) refl, rest.1)

  -- What the client is to learn of a packet.
  abbrev pub expected : (Request → ℤ) → Packet → ℕ × ℤ
  expected handler x = (x.tag, of_bool (is_nonzero (handler (l.request_of x))))

  expected-response :
      (handler : Request → ℤ) (xs : List Packet)
      → map response (map (answered handler) (map l.request_of xs)) ≡ map (expected handler) xs
  expected-response handler [] = refl
  expected-response handler (x ∷ xs) =
      ap₂ ◌∷◌
        (ap (λ n. (n, of_bool (is_nonzero (handler (l.request_of x)))))
          (l.tag_kept x (is_nonzero (handler (l.request_of x)))))
        (expected-response handler xs)

  -- On an idle stream with a free slot for each packet: what the client enqueues, the server
  -- processes and acknowledges, and as many update_response_queue of the client return a response
  -- for each packet, in the order in which they were enqueued, with the packet's own tag and the
  -- result that the server gave for it. Nothing waits on either side afterwards.
  pub collect-serve_all-enqueue_all :
      (handler : Request → ℤ) (old : Request) (xs : List Packet) (w : W)
      → t.pending p w ≡ []
      → t.acked p w ≡ []
      → length xs ≤ t.slots p w
      → let w1 = (enqueue_all ck client xs w).1 in
        let w2 = (serve_all sk server handler (length xs) old w1).1 in
        let end = collect ck client (length xs) w2 in
        (end.0 ≡ map (expected handler) xs) × (t.pending p w2 ≡ []) × (t.acked p end.1 ≡ [])
  collect-serve_all-enqueue_all handler old xs w idle quiet enough =
      let w1 = (enqueue_all ck client xs w).1 in
      let sent = enqueue_all-pending xs w in
      let waiting : t.pending p w1 ≡ map l.request_of xs =
        sent.0 ∙ ap (λ q. q ++ map l.request_of xs) idle in
      let count : length (t.pending p w1) ≡ length xs =
        ap length waiting ∙ length-map xs l.request_of in
      let served = serve_all-acked sk t server p here handler (length xs) old w1 (omega arith) in
      let requests = map (answered handler) (map l.request_of xs) in
      let w2 = (serve_all sk server handler (length xs) old w1).1 in
      let done : t.acked p w2 ≡ requests =
        served.1
        ∙ ap (λ q. q ++ map (answered handler) (take (t.slots p w1) (t.pending p w1)))
            (sent.2 ∙ quiet)
        ∙ ap (map (answered handler)) (take_all (t.slots p w1) (t.pending p w1) (omega arith))
        ∙ ap (map (answered handler)) waiting in
      let size : length requests ≡ length xs =
        length-map (map l.request_of xs) (answered handler) ∙ length-map xs l.request_of in
      let got = collect-acked (length xs) requests w2 size done in
      (got.0 ∙ expected-response handler xs, served.0, got.1)
