-- ===== src/Dhcpv4/Handler/Safety.antt =====
-- The answer of internal/dhcpv4/handler.go to a REQUEST.
use monsoon.Prelude.{
  Bool, true, false, Option, none, some, ◌≡◌, ◌⊎◌, inl, inr, refl, sym, ap, ◌∙◌, Bool-cases, ℤ,
  ◌&&◌,
}
use monsoon.GoMap.{nat_eq}
use monsoon.Lease.{Lease, bound}
use monsoon.Lease.Store.{Store}
use monsoon.Dhcpv4.Options
use monsoon.Dhcpv4.Packet.{Packet}
use monsoon.Dhcpv4.Pool.{PoolManager, AllocationResult}
use monsoon.Dhcpv4.Handler
use monsoon.Dhcpv4.Handler.{Handler, NetText, World, Reply, Event, reply, store_failed}
use monsoon.Dhcpv4.Handler.Messages

module _ {S : Type 0} (store : Store S) (net : NetText) (h : Handler) (now : ℤ) where
  -- The store took a bound lease of the address that the reply gives.
  abbrev pub IsStored : World S → World S → Packet → Type 0
  IsStored w w' p =
      (l : Lease) × (store.upsert l w.leases ≡ (w'.leases, true))
      × (l.state ≡ bound)
      × (l.ip ≡ net.ip_string p.yiaddr)

  -- what a REQUEST may come to: a refusal or an acknowledgement that is stored
  abbrev pub Answer : Packet → World S → World S × Reply → Type 0
  Answer req w (w', reply p) = (p ≡ Handler.nak h req) ⊎ IsStored w w' p
  Answer req w (w', r) = r ≡ store_failed

  tell-leases :
      (wanted : Bool) (e : Event) (l : Lease) (w : World S)
      → (Messages.tell store net h now wanted e l w).leases ≡ w.leases
  unfolding Messages.tell
  tell-leases wanted e l w = elim (Bool-cases (wanted && h.has_listener)) [
    | inl told ↦ rw told refl
    | inr silent ↦ rw silent refl
  ]

  stored-Answer :
      (req p : Packet) (w w0 : World S) (e : Event) (l : Lease) (r : S × Bool)
      → store.upsert l w.leases ≡ r
      → l.state ≡ bound
      → l.ip ≡ net.ip_string p.yiaddr
      → Answer req w (Messages.stored store net h now r true e l p w0)
  unfolding Messages.stored
  stored-Answer req p w w0 e l (st, true) up b i =
      let told = tell-leases true e l (record w0 { leases = st }) in
      inr (l, up ∙ ap (λ x. (x, true)) (sym told), b, i)
  stored-Answer req p w w0 e l (st, false) up b i = refl

  request_with-Answer :
      (req : Packet) (r : PoolManager × Option AllocationResult) (w : World S)
      → Answer req w (Messages.request_with store net h now req r w)
  unfolding Messages.request_with
  request_with-Answer req (pm, none) w = inl refl
  request_with-Answer req (pm, some alloc) w =
      let l = Messages.new_lease store net h now req bound alloc in
      let p = Handler.grant h req Options.message_ack alloc in
      stored-Answer req p w (record w { pools = pm }) _ l (store.upsert l w.leases) refl
        (unfold Messages.new_lease in refl) (unfold Messages.new_lease Handler.grant in refl)

  -- Every reply to a REQUEST is the refusal, or it gives an address for which the store has just
  -- taken a bound lease; without a reply, the store has failed.
  pub handle_request-Answer :
      (req : Packet) (w : World S) → Answer req w (Messages.handle_request store net h now req w)
  unfolding Messages.handle_request
  handle_request-Answer req w =
      request_with-Answer req (Messages.allocate_for store net h now req (Handler.target_ip req) w)
        w
