-- ===== src/Pool/Closed.antt =====
-- A closed pool.
use Prim.Native.String.{String}
use text.Mathlib.Text.{◌==◌ as str_eq}
use koorde_dht.Prelude.{◌≡◌, true, false, [], Option, some, arith, refl}
use koorde_dht.Result.{Error}
use koorde_dht.Pool.{
  Pool, Outcome, returns, blocks, leave_locked, pool_closed, add_ref, add_ref_locked, get_from_pool,
  get_from_pool_locked, dial_ephemeral, release, release_locked, close, close_all,
}

module _ (dial hang_up : String → Option Error) where
  -- The calls of the pool that take its mutex.
  pub data Call : Type 0 where
    add_call get_call release_call : String → Call

  unfoldable pub call : Pool → Call → Outcome (Option Error)
  call p (add_call addr) = add_ref dial hang_up p addr
  call p (get_call addr) = get_from_pool p addr
  call p (release_call addr) = release dial hang_up p addr

  -- An address that is neither empty nor the node's own.
  abbrev pub IsPeer : Pool → String → Type 0
  IsPeer p addr = (str_eq addr "" ≡ false) × (str_eq addr p.self_addr ≡ false)

  abbrev pub call_addr : Call → String
  call_addr (add_call addr) = addr
  call_addr (get_call addr) = addr
  call_addr (release_call addr) = addr

  closed_call :
      (p : Pool) (c : Call)
      → p.closed ≡ true
      → p.locked ≡ false
      → IsPeer p (call_addr c)
      → call p c ≡ returns (some pool_closed) (leave_locked p)
  unfolding call add_ref add_ref_locked get_from_pool get_from_pool_locked release release_locked
  closed_call p (add_call addr) hc hl peer = ground arith
  closed_call p (get_call addr) hc hl peer = ground arith
  closed_call p (release_call addr) hc hl peer = ground arith

  locked_call : (p : Pool) (c : Call) → p.locked ≡ true → IsPeer p (call_addr c) → call p c ≡ blocks
  unfolding call add_ref get_from_pool release
  locked_call p (add_call addr) hl peer = ground arith
  locked_call p (get_call addr) hl peer = ground arith
  locked_call p (release_call addr) hl peer = ground arith

  -- After Close, AddRef, GetFromPool or Release of a peer's address reports a closed pool and leaves
  -- the mutex held: then each of them blocks, and so do DialEphemeral and Close.
  pub close_blocks :
      (p : Pool) (c d : Call) (addr : String)
      → p.locked ≡ false
      → p.closed ≡ false
      → IsPeer p (call_addr c)
      → IsPeer p (call_addr d)
      → (e : Option Error) × (closed : Pool) × (stuck : Pool) × (close dial hang_up p
          ≡ returns e closed)
        × (call closed c ≡ returns (some pool_closed) stuck)
        × (call stuck d ≡ blocks)
        × (dial_ephemeral dial hang_up stuck addr ≡ blocks)
        × (close dial hang_up stuck ≡ blocks)
  unfolding close
  close_blocks p c d addr hl hc pc pd =
      let q = record p { closed = true; clients = [] } in
      (
        close_all dial hang_up p.clients,
        q,
        leave_locked q,
        ground arith,
        closed_call q c refl hl pc,
        locked_call (leave_locked q) d refl pd,
        unfold dial_ephemeral in refl,
        refl,
      )
