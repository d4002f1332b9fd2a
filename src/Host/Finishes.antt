-- ===== src/Host/Finishes.antt =====
-- Methods that end in a value or an error and leave a mutex free.
use mathlib.Core.Path.{subst}
use nftableslib.Base.{
  Outcome, ok, err, panic, blocked, Error, Bool, true, false, ◌≡◌, refl, sym, List, Bytes, arith,
}
use nftableslib.Host.{
  Host, Action, Guarded, ◌>>=◌, pure, lift, on_host, locked, release_after, content_of, set_content,
}
use nftableslib.Nft.{Table, NfSet, SetElement}

-- A value or an error, and neither a panic nor waiting without end.
abbrev pub returned : {A : Type 0} → Outcome A → Bool
returned (ok a) = true
returned (err e) = true
returned panic = false
returned blocked = false

-- The connection's calls return.
pub record Answering (host : Host) : Type 0 where
  pub add_set :
      (set : NfSet) (es : List SetElement) (s : host.S) → returned (host.add_set set es s).0 ≡ true
  pub flush : (s : host.S) → returned (host.flush s).0 ≡ true
  pub get_sets : (t : Table) (s : host.S) → returned (host.get_sets t s).0 ≡ true
  pub get_set_by_name :
      (t : Table) (n : Bytes) (s : host.S) → returned (host.get_set_by_name t n s).0 ≡ true
  pub get_set_elements :
      (set : NfSet) (s : host.S) → returned (host.get_set_elements set s).0 ≡ true
  pub set_add_elements :
      (set : NfSet) (es : List SetElement) (s : host.S)
      → returned (host.set_add_elements set es s).0 ≡ true
  pub set_delete_elements :
      (set : NfSet) (es : List SetElement) (s : host.S)
      → returned (host.set_delete_elements set es s).0 ≡ true
  pub list_tables : (s : host.S) → returned (host.list_tables s).0 ≡ true
  pub list_chains : (s : host.S) → returned (host.list_chains s).0 ≡ true
  pub get_rule : (t : Table) (c : Bytes) (s : host.S) → returned (host.get_rule t c s).0 ≡ true

abbrev pub free : {T : Type 0} → T → Guarded T
free t = record { held = false; content = t }

module _ {T S : Type 0} where
  -- A result, with the mutex held or not as the flag says.
  abbrev pub EndedAt : {A : Type 0} → Bool → Outcome A × (Guarded T × S) → Type 0
  EndedAt b (o, (g, s)) = (returned o ≡ true) × (g.held ≡ b)

  abbrev pub Ended : {A : Type 0} → Outcome A × (Guarded T × S) → Type 0
  Ended = EndedAt false

  -- From a mutex that is held or not as the flag says the method returns, and leaves it so.
  pub record EndsWith {A : Type 0} (b : Bool) (m : Action (Guarded T × S) A) : Type 0 where
    pub ends : (t : T) (s : S) → EndedAt b (m (record { held = b; content = t }, s))

  -- From a free mutex the method returns, with the mutex free.
  abbrev pub Finishes : {A : Type 0} → Action (Guarded T × S) A → Type 0
  Finishes m = EndsWith false m

module _ {T S : Type 0} {b : Bool} where
  Ended-bind :
      {A B : Type 0} (r : Outcome A × (Guarded T × S)) (k : A → Action (Guarded T × S) B)
      → EndedAt b r
      → ((a : A) → EndsWith b (k a))
      → EndedAt b (((λ st. r) >>= k) r.1)
  Ended-bind (ok a, (g, s)) k (h, e) next =
      subst (λ x. EndedAt b (k a (record { held = x; content = g.content }, s))) (sym e)
        ((next a).ends g.content s)
  Ended-bind (err why, (g, s)) k h next = h
  Ended-bind (panic, (g, s)) k h next = h
  Ended-bind (blocked, (g, s)) k h next = h

  pub Finishes-bind :
      {A B : Type 0} (m : Action (Guarded T × S) A) (k : A → Action (Guarded T × S) B)
      → EndsWith b m
      → ((a : A) → EndsWith b (k a))
      → EndsWith b (m >>= k)
  Finishes-bind m k h next = record {
    ends = λ t s. Ended-bind (m (record { held = b; content = t }, s)) k (h.ends t s) next;
  }

  pub Finishes-pure : {A : Type 0} (a : A) → EndsWith {T = T} {S = S} b (pure a)
  Finishes-pure a = record { ends = λ t s. (refl, refl) }

  pub Finishes-error : {A : Type 0} (e : Error) → EndsWith {T = T} {S = S} b (lift {A = A} (err e))
  Finishes-error e = record { ends = λ t s. (refl, refl) }

  pub Finishes-content : EndsWith {S = S} b (content_of {T = T})
  Finishes-content = record { ends = λ t s. (refl, refl) }

  pub Finishes-set_content : (t : T) → EndsWith {S = S} b (set_content t)
  Finishes-set_content t = record { ends = λ _ s. (refl, refl) }

  pub Finishes-host :
      {A : Type 0} (m : Action S A)
      → ((s : S) → returned (m s).0 ≡ true)
      → EndsWith {T = T} b (on_host m)
  Finishes-host m h = record { ends = λ t s. (h s, refl) }

module _ {T S : Type 0} where
  Ended-release :
      {A : Type 0} (r : Outcome A × (Guarded T × S)) → EndedAt true r → Ended (release_after r)
  Ended-release (o, (g, s)) (h, e) = ground (arith, h, e)

  -- What returns under the lock returns, and the lock is released.
  pub Finishes-locked :
      {A : Type 0} (m : Action (Guarded T × S) A) → EndsWith true m → Finishes (locked m)
  Finishes-locked m h = record {
    ends = λ t s. Ended-release (m (record { held = true; content = t }, s)) (h.ends t s);
  }
