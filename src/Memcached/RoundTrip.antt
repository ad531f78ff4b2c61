-- ===== src/Memcached/RoundTrip.antt =====
-- A value that is stored is read back, once: a second `set` of a key is answered and dropped.
use linux_socket_test.Prelude.{
  ℕ, suc, ◌≡◌, refl, ap, sym, ◌∙◌, List, [], ◌∷◌, ◌++◌, Option, none, some, arith, true,
  if◌then◌else◌, Bool, codes, eq_bytes_iff,
}
use linux_socket_test.Muduo.{BufferOps}
use linux_socket_test.Memcached.Item.{Item, key, key-plain}
use linux_socket_test.Memcached.Server.{get_item, equal}
use linux_socket_test.Memcached.Store.{get_item-store_item}
use linux_socket_test.Memcached.Words.{number}
use linux_socket_test.Memcached.Session.{World, Env, Survives, send}
use linux_socket_test.Memcached.Loop.{on_message}
use linux_socket_test.Memcached.SplitLine.{awaiting}
use linux_socket_test.Memcached.Commands.{set_line, get_line, key_item}
use linux_socket_test.Memcached.Conversation.{
  set_item, after_set, SetRequest, set_stores, get_replies, value_text,
}

module _ (m : BufferOps) (env : Env) where
  open m use {Buffer, peek}

  found_after_set :
      (w : World) (k fs es ns v : List ℕ)
      → get_item (after_set m env w k fs es ns v).store (key_item env k)
        ≡ elim (get_item w.store (key_item env k)) [
          | none ↦ some (set_item m env k fs es v)
          | some old ↦ some old
        ]
  unfolding equal
  found_after_set w k fs es ns v =
      let i = set_item m env k fs es v in
      let same : equal i (key_item env k) ≡ true = (eq_bytes_iff (key i) (key (key_item env k))).1 (
        key-plain env.hash_range k v (number fs) (number es)
        ∙ sym (key-plain env.hash_range k [] 0 0)) in
      get_item-store_item env.hash_range w.store i (key_item env k)
        (ap env.hash_range (sym (key-plain env.hash_range k v (number fs) (number es))))
        (ap env.hash_range (sym (key-plain env.hash_range k [] 0 0)))
      ∙ ap
          (λ (t : Bool). elim (get_item w.store (key_item env k)) as (λ _. Option Item) [
            | none ↦ if t then some i else none
            | some old ↦ some old
          ])
          same

  -- A client that stores a value under a key that the store does not have, and asks for it in the
  -- same buffer, gets "STORED" and then exactly its value back, with its flag and length, if the
  -- memory of the destroyed string to which `doGet` points still holds the key when it is read;
  -- three rounds of `onMessage` take exactly the two requests from the buffer.
  pub set_then_get :
      (f : ℕ) (w : World) (b : Buffer) (k fs es ns v rest : List ℕ)
      → peek b ≡ set_line k fs es ns ++ 13 ∷ 10 ∷ (v ++ 13 ∷ 10 ∷ (get_line k ++ 13 ∷ 10 ∷ rest))
      → SetRequest k fs es ns v
      → get_item w.store (key_item env k) ≡ none
      → Survives env (w.log ++ send (codes "STORED\r\n") ∷ []) k
      → (b' : Buffer) × (w' : World) × (on_message m env (suc (suc (suc f))) (awaiting w) b
          ≡ on_message m env f (awaiting w') b')
        × (peek b' ≡ rest)
        × (w'.log
            ≡ (w.log ++ send (codes "STORED\r\n") ∷ [])
              ++ send (value_text m env k (number fs) v) ∷ [])
  set_then_get f w b k fs es ns v rest e s fresh alive =
      let w1 = after_set m env w k fs es ns v in
      let i = set_item m env k fs es v in
      let (b1, first, left) =
        set_stores m env (suc f) w b k fs es ns v (get_line k ++ 13 ∷ 10 ∷ rest) e s in
      let found : get_item w1.store (key_item env k) ≡ some i =
        found_after_set w k fs es ns v ∙ rw fresh in
      let (b2, w2, second, behind, _, log) =
        get_replies m env f w1 b1 k v rest (number fs) (number es) left s.word s.one_line
          (omega (arith, s.short)) alive found in
      (b2, w2, first ∙ second, behind, log)

  -- A `set` of a key that the store already has is answered "STORED" like any other, but the store
  -- keeps the old item: the new value is dropped.
  pub second_set_dropped :
      (f : ℕ) (w : World) (b : Buffer) (k fs es ns v rest : List ℕ) (old : Item)
      → peek b ≡ set_line k fs es ns ++ 13 ∷ 10 ∷ (v ++ 13 ∷ 10 ∷ rest)
      → SetRequest k fs es ns v
      → get_item w.store (key_item env k) ≡ some old
      → (b' : Buffer) × (w' : World) × (on_message m env (suc (suc f)) (awaiting w) b
          ≡ on_message m env f w' b')
        × (w'.log ≡ w.log ++ send (codes "STORED\r\n") ∷ [])
        × (get_item w'.store (key_item env k) ≡ some old)
  second_set_dropped f w b k fs es ns v rest old e s there =
      let (b', run, _) = set_stores m env f w b k fs es ns v rest e s in
      (b', after_set m env w k fs es ns v, run, refl, found_after_set w k fs es ns v ∙ rw there)
