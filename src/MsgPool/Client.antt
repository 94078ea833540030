-- ===== src/MsgPool/Client.antt =====
-- What the user of a pool sees.
use sadie.Prelude.{
  length, ◌<◌, ◌^◌, ℕ, ◌≡◌, ◌≢◌, true, false, some, List, [], ◌∷◌, ◌++◌, arith, ◌==◌,
}
use sadie.Word.{null}
use sadie.RingBuff.{RingBuff, rmv_mem}
use sadie.RingBuff.Spec
use sadie.RingBuff.Refine.{Holds, rmv_mem_refines}
use sadie.MsgPool.Fill.{add_mem-room}
use sadie.MsgPool.Calls.{World, set_ring, set_len, get_msg, ret_msg}

take_oldest :
    {k : ℕ} {m : ℕ} {q : List ℕ} {rb : RingBuff}
    → Holds k (m ∷ q) rb
    → (rb' : RingBuff) × (rmv_mem rb ≡ some (m, rb')) × Holds k q rb'
unfolding Spec.pop
take_oldest {m} {q} held = rmv_mem_refines (m ∷ q) held

-- A message that belongs to a pool with room for it goes behind those that the pool holds.
ret_msg-room :
    (w : World) (mp m : ℕ) {k : ℕ} {q : List ℕ}
    → mp ≢ null
    → m ≢ null
    → w.heap.mp m ≡ mp
    → Holds k q (w.pool mp).rb
    → length q < 2 ^ k
    → (w' : World) × (ret_msg w m ≡ some w') × Holds k (q ++ (m ∷ [])) (w'.pool mp).rb
unfolding ret_msg
ret_msg-room w mp m real m_real owner held room =
    let (rb, e, held') = add_mem-room m held m_real room in
    let self : (mp == mp) ≡ true = ground arith in
    let there : (mp == null) ≡ false = ground arith in
    let m_there : (m == null) ≡ false = ground arith in
    (set_ring w mp rb, rw (owner, m_there, there, e), rw self held')

-- A message that is got has the pool's length of extra data; when it is returned it goes behind the
-- messages that the pool still holds.
pub ret_msg-get_msg :
    (w : World) (mp m : ℕ) {k : ℕ} {q : List ℕ}
    → mp ≢ null
    → Holds k (m ∷ q) (w.pool mp).rb
    → w.heap.mp m ≡ mp
    → (w1 w2 : World) × (get_msg w mp ≡ some (m, w1))
      × (w1.heap.len_extra m ≡ (w.pool mp).len_extra)
      × Holds k q (w1.pool mp).rb
      × (ret_msg w1 m ≡ some w2)
      × Holds k (q ++ (m ∷ [])) (w2.pool mp).rb
unfolding get_msg
ret_msg-get_msg w mp m {k} {q} real held owner =
    let (rb1, e1, held1) = take_oldest held in
    let m_real : m ≢ 0 = held.1.real 0 (omega arith) in
    let self : (mp == mp) ≡ true = ground arith in
    let self_m : (m == m) ≡ true = ground arith in
    let there : (mp == null) ≡ false = ground arith in
    let m_there : (m == null) ≡ false = ground arith in
    let w1 = set_len (set_ring w mp rb1) m (w.pool mp).len_extra in
    let held' : Holds k q (w1.pool mp).rb = rw self held1 in
    let (w2, e2, held2) =
      ret_msg-room w1 mp m real m_real owner held' (omega (arith, held.1.fits)) in
    (w1, w2, rw (there, e1, m_there), rw self_m, held', e2, held2)

-- From a pool that holds no message NULL is returned, and the pool still holds none.
pub get_msg-nil :
    (w : World) (mp : ℕ) {k : ℕ}
    → mp ≢ null
    → Holds k [] (w.pool mp).rb
    → (w' : World) × (get_msg w mp ≡ some (null, w')) × Holds k [] (w'.pool mp).rb
unfolding get_msg Spec.pop
get_msg-nil w mp {k} real held =
    let (rb, e, held') = rmv_mem_refines [] held in
    let self : (mp == mp) ≡ true = ground arith in
    let there : (mp == null) ≡ false = ground arith in
    (set_ring w mp rb, rw (there, e), rw self held')
