-- ===== src/Logger/Chain.antt =====
-- The linked list that a queue holds.
use jaws.Base.{
  ℕ, suc, ◌<◌, List, [], ◌∷◌, ◌++◌, map, Option, none, some, true, false, ◌==◌, contains, All,
  Distinct, ◌≡◌, refl, sym, ap, ◌≢◌, subst, ◌∙◌, arith, Bool-cases, inl, inr, ==_refl, ==→eq,
}
use jaws.Request.{update}
use jaws.Logger.{Item, Entry, LoggerQueue, link, first_entry}

abbrev pub first : List ℕ → Option ℕ
first [] = none
first (n ∷ ns) = some n

abbrev pub last : List ℕ → Option ℕ
last [] = none
last (n ∷ []) = some n
last (n ∷ m ∷ ns) = last (m ∷ ns)

-- Each entry points to the next one, and the last one to none.
abbrev pub Links : (ℕ → Entry) → List ℕ → Type 0
Links store [] = Unit
Links store (n ∷ ns) = ((store n).next ≡ first ns) × Links store ns

abbrev pub item : (ℕ → Entry) → ℕ → Item
item store n = ((store n).logger, (store n).err)

-- The queue holds the entries, oldest first.
pub record Holds (q : LoggerQueue) (nodes : List ℕ) : Type 0 where
  pub head : q.head ≡ first nodes
  pub tail : q.tail ≡ last nodes
  pub links : Links q.store nodes
  pub once : Distinct nodes
  pub made : All (λ n. n < q.next_entry) nodes

pub fresh : (k : ℕ) (nodes : List ℕ) → All (λ n. n < k) nodes → contains nodes k ≡ false
fresh k [] h = refl
fresh k (n ∷ ns) h = ground (arith, fresh k ns h.1)

pub made_append_one :
    (k : ℕ) (nodes : List ℕ) → All (λ n. n < k) nodes → All (λ n. n < suc k) (nodes ++ k ∷ [])
made_append_one k [] h = (omega arith, tt)
made_append_one k (n ∷ ns) h = (omega (arith, h.0), made_append_one k ns h.1)

contains-last : (t : ℕ) (nodes : List ℕ) → last nodes ≡ some t → contains nodes t ≡ true
contains-last t [] h = ground (arith, h)
contains-last t (n ∷ []) h = ground (arith, h)
contains-last t (n ∷ m ∷ ns) h = ground (arith, contains-last t (m ∷ ns) h)

pub last-append_one : (nodes : List ℕ) (e : ℕ) → last (nodes ++ e ∷ []) ≡ some e
last-append_one [] e = refl
last-append_one (n ∷ []) e = refl
last-append_one (n ∷ m ∷ ns) e = last-append_one (m ∷ ns) e

-- A change at an entry outside the list.
pub Links-update :
    (store : ℕ → Entry) (k : ℕ) (x : Entry) (nodes : List ℕ)
    → contains nodes k ≡ false
    → Links store nodes
    → Links (update store k x) nodes
Links-update store k x [] h l = tt
Links-update store k x (n ∷ ns) h l =
    (ground (arith, h, l.0), Links-update store k x ns (ground (arith, h)) l.1)

pub items-update :
    (store : ℕ → Entry) (k : ℕ) (x : Entry) (nodes : List ℕ)
    → contains nodes k ≡ false
    → map (item (update store k x)) nodes ≡ map (item store) nodes
items-update store k x [] h = refl
items-update store k x (n ∷ ns) h =
    let e : (k == n) ≡ false = ground (arith, h) in
    rw e (ap (λ l. item store n ∷ l) (items-update store k x ns (ground (arith, h))))

-- The last entry is made to point to a new one.
next-link : (store : ℕ → Entry) (t e : ℕ) → (link store (some t) e t).next ≡ some e
unfolding link
next-link store t e = rw (==_refl t) refl

link_other : (store : ℕ → Entry) (t e n : ℕ) → (t == n) ≡ false → link store (some t) e n ≡ store n
unfolding link
link_other store t e n h = rw h refl

some_injective : (a b : ℕ) → some a ≡ some b → (a == b) ≡ true
some_injective a b h = ground (arith, h)

differ_absurd : (ns : List ℕ) (a b : ℕ) → contains ns a ≡ false → contains ns b ≡ true → b ≢ a
differ_absurd ns a b h m e = ground (arith, h, m, e)

differ : (ns : List ℕ) (a b : ℕ) → contains ns a ≡ false → contains ns b ≡ true → (b == a) ≡ false
differ ns a b h m = elim (Bool-cases (b == a)) [
  | inl e ↦ absurd (differ_absurd ns a b h m (==→eq b a e))
  | inr e ↦ e
]

Links-link :
    (store : ℕ → Entry) (t e : ℕ) (nodes : List ℕ)
    → last nodes ≡ some t
    → Distinct nodes
    → contains nodes e ≡ false
    → (store e).next ≡ none
    → Links store nodes
    → Links (link store (some t) e) (nodes ++ e ∷ [])
Links-link store t e [] h d f x l = ground (arith, h)
Links-link store t e (n ∷ []) h d f x l =
    let q : n ≡ t = ==→eq n t (some_injective n t h) in
    (
      rw q (next-link store t e),
      (ap (λ y. y.next) (link_other store t e e (ground (arith, f, q))) ∙ x, tt),
    )
Links-link store t e (n ∷ m ∷ ns) h d f x l = (
  ap (λ y. y.next) (link_other store t e n (differ (m ∷ ns) n t d.0 (contains-last t (m ∷ ns) h)))
      ∙ l.0,
  Links-link store t e (m ∷ ns) h d.1 (ground (arith, f)) x l.1,
)

item-link : (store : ℕ → Entry) (t e n : ℕ) → item (link store (some t) e) n ≡ item store n
unfolding link
item-link store t e n = elim (Bool-cases (t == n)) [
  | inl b ↦ rw (==→eq t n b) (rw (==_refl n) refl)
  | inr b ↦ rw b refl
]

pub items-link :
    (store : ℕ → Entry) (t : Option ℕ) (e : ℕ) (nodes : List ℕ)
    → map (item (link store t e)) nodes ≡ map (item store) nodes
unfolding link
items-link store none e nodes = refl
items-link store (some t) e [] = refl
items-link store (some t) e (n ∷ ns) =
    rw (item-link store t e n, items-link store (some t) e ns) refl

last-some : (n : ℕ) (ns : List ℕ) → (t : ℕ) × (last (n ∷ ns) ≡ some t)
last-some n [] = (n, refl)
last-some n (m ∷ ns) = last-some m ns

pub Links-append_one :
    (store : ℕ → Entry) (e : ℕ) (nodes : List ℕ)
    → Distinct nodes
    → contains nodes e ≡ false
    → (store e).next ≡ none
    → Links store nodes
    → Links (link store (last nodes) e) (nodes ++ e ∷ [])
unfolding link
Links-append_one store e [] d f x l = (x, tt)
Links-append_one store e (n ∷ ns) d f x l =
    let (t, h) = last-some n ns in
    subst (λ o. Links (link store o e) (n ∷ ns ++ e ∷ [])) (sym h)
      (Links-link store t e (n ∷ ns) h d f x l)

pub first-append_one :
    (nodes : List ℕ) (e : ℕ) → first_entry (last nodes) (first nodes) e ≡ first (nodes ++ e ∷ [])
unfolding first_entry
first-append_one [] e = refl
first-append_one (n ∷ ns) e = let (t, h) = last-some n ns in rw h refl
