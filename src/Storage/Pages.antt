-- ===== src/Storage/Pages.antt =====
-- The list that client/src/storage/MessageRepository.ts gives for a contact.
use mathlib.Core.List.{Perm}
use mathlib.Core.List.Perm
use tor_e2ee_messenger.Common.{
  ℕ, zero, suc, ◌+◌, ◌≡◌, ◌≤◌, refl, ap, sym, subst, ◌∙◌, List, [], ◌∷◌, ◌++◌, Text, leb, length,
  take, drop, All, keep_if, arith, Bool-cases, inl, inr,
}
use tor_e2ee_messenger.Storage.Database.{StoredMessage, Database}
use tor_e2ee_messenger.Storage.Messages.{
  insert_by_time, by_time, of_contact, get_messages_for_contact,
}

-- No message is later than one that stands behind it.
abbrev pub IsOrdered : List StoredMessage → Type 0
IsOrdered [] = Unit
IsOrdered (m ∷ ms) = All (λ n. m.timestamp ≤ n.timestamp) ms × IsOrdered ms

All-insert {ℓ} :
    (P : StoredMessage → Type ℓ) (m : StoredMessage) (ms : List StoredMessage)
    → P m
    → All P ms
    → All P (insert_by_time m ms)
unfolding insert_by_time
All-insert P m [] q h = (q, tt)
All-insert P m (n ∷ ms) q (first, rest) = elim (Bool-cases (leb m.timestamp n.timestamp)) [
  | inl e ↦ rw e (q, (first, rest))
  | inr e ↦ rw e (first, All-insert P m ms q rest)
]

All-earlier :
    (a b : ℕ) (ms : List StoredMessage)
    → a ≤ b
    → All (λ n. b ≤ n.timestamp) ms
    → All (λ n. a ≤ n.timestamp) ms
All-earlier a b [] h k = tt
All-earlier a b (n ∷ ms) h (first, rest) = (omega arith, All-earlier a b ms h rest)

insert-Ordered :
    (m : StoredMessage) (ms : List StoredMessage) → IsOrdered ms → IsOrdered (insert_by_time m ms)
unfolding insert_by_time
insert-Ordered m [] h = (tt, tt)
insert-Ordered m (n ∷ ms) (first, rest) = elim (Bool-cases (leb m.timestamp n.timestamp)) [
  | inl e ↦
      let le : m.timestamp ≤ n.timestamp = ground arith in
      rw e ((le, All-earlier m.timestamp n.timestamp ms le first), (first, rest))
  | inr e ↦
      let le : n.timestamp ≤ m.timestamp = ground arith in
      rw e (All-insert _ m ms le first, insert-Ordered m ms rest)
]

by_time-Ordered : (ms : List StoredMessage) → IsOrdered (by_time ms)
unfolding by_time
by_time-Ordered [] = tt
by_time-Ordered (m ∷ ms) = insert-Ordered m (by_time ms) (by_time-Ordered ms)

insert-Perm : (m : StoredMessage) (ms : List StoredMessage) → Perm (insert_by_time m ms) (m ∷ ms)
unfolding insert_by_time
insert-Perm m [] = Perm.refl _
insert-Perm m (n ∷ ms) = elim (Bool-cases (leb m.timestamp n.timestamp)) [
  | inl e ↦ rw e (Perm.refl _)
  | inr e ↦ rw e (Perm.trans (Perm.cons n (insert-Perm m ms)) (Perm.swap m n ms))
]

by_time-Perm : (ms : List StoredMessage) → Perm (by_time ms) ms
unfolding by_time
by_time-Perm [] = Perm.refl _
by_time-Perm (m ∷ ms) = Perm.trans (insert-Perm m (by_time ms)) (Perm.cons m (by_time-Perm ms))

drop_nothing : (n : ℕ) → drop {A = StoredMessage} n [] ≡ []
drop_nothing zero = refl
drop_nothing (suc n) = refl

take_nothing : (n : ℕ) → take {A = StoredMessage} n [] ≡ []
take_nothing zero = refl
take_nothing (suc n) = refl

drop-drop : (n k : ℕ) (ms : List StoredMessage) → drop n (drop k ms) ≡ drop (k + n) ms
drop-drop n zero ms = ap (λ j. drop j ms) (omega arith)
drop-drop n (suc k) [] = drop_nothing n ∙ sym (drop_nothing (suc k + n))
drop-drop n (suc k) (m ∷ ms) =
    drop-drop n k ms
    ∙ ap (λ j. drop j (m ∷ ms)) (let e : suc (k + n) ≡ suc k + n = omega arith in e)

take-split : (n k : ℕ) (ms : List StoredMessage) → take n ms ++ take k (drop n ms) ≡ take (n + k) ms
take-split zero k ms = ap (λ j. take j ms) (omega arith)
take-split (suc n) k [] = take_nothing k ∙ sym (take_nothing (suc n + k))
take-split (suc n) k (m ∷ ms) =
    ap (λ l. m ∷ l) (take-split n k ms)
    ∙ ap (λ j. take j (m ∷ ms)) (let e : suc (n + k) ≡ suc n + k = omega arith in e)

take-all : (n : ℕ) (ms : List StoredMessage) → length ms ≤ n → take n ms ≡ ms
take-all n [] h = take_nothing n
take-all zero (m ∷ ms) h = absurd (omega arith)
take-all (suc n) (m ∷ ms) h = ap (λ l. m ∷ l) (take-all n ms (omega arith))

length-insert :
    (m : StoredMessage) (ms : List StoredMessage) → length (insert_by_time m ms) ≡ length ms + 1
unfolding insert_by_time
length-insert m [] = refl
length-insert m (n ∷ ms) = ground (arith, length-insert m ms)

length-by_time : (ms : List StoredMessage) → length (by_time ms) ≡ length ms
unfolding by_time
length-by_time [] = refl
length-by_time (m ∷ ms) = omega (arith, length-insert m (by_time ms), length-by_time ms)

-- With a limit that is not too small, the list for a contact has exactly the messages of that contact,
-- each as often as in the table, and none is later than one behind it. And pages fit together: a page
-- and the page behind it are one larger page.
pub get_messages_for_contact-pages :
    (hash : Text) (db : Database) (limit n k offset : ℕ)
    → length (keep_if (of_contact hash) db.messages) ≤ limit
    → IsOrdered (get_messages_for_contact hash limit 0 db)
      × Perm (get_messages_for_contact hash limit 0 db) (keep_if (of_contact hash) db.messages)
      × (get_messages_for_contact hash n offset db
            ++ get_messages_for_contact hash k (offset + n) db
          ≡ get_messages_for_contact hash (n + k) offset db)
unfolding get_messages_for_contact
get_messages_for_contact-pages hash db limit n k offset h =
    let own = keep_if (of_contact hash) db.messages in
    let all : take limit (by_time own) ≡ by_time own =
      take-all limit (by_time own) (omega (arith, length-by_time own)) in
    (
      subst IsOrdered (sym all) (by_time-Ordered own),
      subst (λ l. Perm l own) (sym all) (by_time-Perm own),
      ap (λ l. take n (drop offset (by_time own)) ++ take k l)
            (sym (drop-drop n offset (by_time own)))
          ∙ take-split n k (drop offset (by_time own)),
    )
