-- ===== src/GiftCards/Ledger.antt =====
-- The ledger of the cards: what was put on a card and what was taken off it, and that its balance is the
-- difference, which every operation keeps.
use mathlib.Core.Path.{subst}
use stello_kitchens.Prelude.{
  ℕ, ◌+◌, ◌==◌, ◌<◌, ◌≡◌, inl, inr, refl, ap, List, [], ◌∷◌, ◌++◌, some, arith, All, if◌then◌else◌,
  Bool-cases, ==_iff, All-append,
}
use stello_kitchens.Prelude.Int.{pos_part, neg_part}
use stello_kitchens.Prelude.Texts.{Text, same_text}
use stello_kitchens.GiftCards.{GiftCard, GiftCardTxn, Vault, find_code, find_card, update_card}

abbrev pub amount_in : ℕ → GiftCardTxn → ℕ
amount_in id t = if t.gift_card_id == id then pos_part t.amount else 0

abbrev pub amount_out : ℕ → GiftCardTxn → ℕ
amount_out id t = if t.gift_card_id == id then neg_part t.amount else 0

unfoldable pub credits : ℕ → List GiftCardTxn → ℕ
credits id [] = 0
credits id (t ∷ ts) = amount_in id t + credits id ts

unfoldable pub debits : ℕ → List GiftCardTxn → ℕ
debits id [] = 0
debits id (t ∷ ts) = amount_out id t + debits id ts

abbrev pub Balances : List GiftCardTxn → GiftCard → Type 0
Balances txns c = c.balance + debits c.id txns ≡ credits c.id txns

-- Every balance is what the ledger says, and no row has an id that is still to be given.
pub record IsSound (v : Vault) : Type 0 where
  pub balanced : All (Balances v.txns) v.cards
  pub card_ids : All (λ c. c.id < v.next_id) v.cards
  pub txn_ids : All (λ t. t.gift_card_id < v.next_id) v.txns

credits-append :
    (id : ℕ) (ts : List GiftCardTxn) (t : GiftCardTxn)
    → credits id (ts ++ (t ∷ [])) ≡ credits id ts + amount_in id t
unfolding credits
credits-append id [] t = omega arith
credits-append id (s ∷ ts) t = omega (arith, credits-append id ts t)

debits-append :
    (id : ℕ) (ts : List GiftCardTxn) (t : GiftCardTxn)
    → debits id (ts ++ (t ∷ [])) ≡ debits id ts + amount_out id t
unfolding debits
debits-append id [] t = omega arith
debits-append id (s ∷ ts) t = omega (arith, debits-append id ts t)

-- A card without entries.
pub no_entries :
    (id : ℕ) (ts : List GiftCardTxn)
    → All (λ t. t.gift_card_id < id) ts
    → (credits id ts ≡ 0) × (debits id ts ≡ 0)
unfolding credits debits
no_entries id [] h = (refl, refl)
no_entries id (t ∷ ts) h = ground (arith, no_entries id ts h.1)

pub find_code-All {ℓ} :
    (P : GiftCard → Type ℓ) (code : Text) (cs : List GiftCard) {c : GiftCard}
    → All P cs
    → find_code code cs ≡ some c
    → P c
unfolding find_code
find_code-All P code [] h e = absurd (cc)
find_code-All P code (x ∷ cs) {c} (p, ps) e = elim (Bool-cases (same_text x.code code)) [
  | inl here ↦ subst P (ground arith) p
  | inr there ↦ find_code-All P code cs {c = c} ps (ground arith)
]

pub find_card-All {ℓ} :
    (P : GiftCard → Type ℓ) (id : ℕ) (cs : List GiftCard) {c : GiftCard}
    → All P cs
    → find_card id cs ≡ some c
    → P c
unfolding find_card
find_card-All P id [] h e = absurd (cc)
find_card-All P id (x ∷ cs) {c} (p, ps) e = elim (Bool-cases (x.id == id)) [
  | inl here ↦ subst P (ground arith) p
  | inr there ↦ find_card-All P id cs {c = c} ps (ground arith)
]

pub find_card-id :
    (id : ℕ) (cs : List GiftCard) {c : GiftCard} → find_card id cs ≡ some c → c.id ≡ id
unfolding find_card
find_card-id id [] e = absurd (cc)
find_card-id id (x ∷ cs) {c} e = ground (arith, find_card-id id cs {c = c}, ==_iff x.id id)

pub update_card-ids :
    (n id : ℕ) (f : GiftCard → GiftCard) (cs : List GiftCard)
    → ((c : GiftCard) → (f c).id ≡ c.id)
    → All (λ c. c.id < n) cs
    → All (λ c. c.id < n) (update_card id f cs)
unfolding update_card
update_card-ids n id f [] keeps h = tt
update_card-ids n id f (c ∷ cs) keeps h =
    ground (arith, keeps c, update_card-ids n id f cs keeps h.1)

-- An entry for a card whose balance it takes along.
pub entry-Balances :
    (txns : List GiftCardTxn) (t : GiftCardTxn) (f : GiftCard → GiftCard) (cs : List GiftCard)
    → ((c : GiftCard) → (f c).id ≡ c.id)
    → ((c : GiftCard)
        → c.id ≡ t.gift_card_id
        → Balances txns c
        → (f c).balance + neg_part t.amount ≡ c.balance + pos_part t.amount)
    → All (Balances txns) cs
    → All (Balances (txns ++ (t ∷ []))) (update_card t.gift_card_id f cs)
unfolding update_card
entry-Balances txns t f [] keeps moves h = tt
entry-Balances txns t f (c ∷ cs) keeps moves (b, bs) =
    let rest = entry-Balances txns t f cs keeps moves bs in
    let ins = credits-append c.id txns t in
    let outs = debits-append c.id txns t in
    elim (Bool-cases (c.id == t.gift_card_id)) [
      | inl same ↦
          let e = (==_iff c.id t.gift_card_id).0 same in
          let moved = moves c e b in (ground (arith, keeps c, ins, outs), rest)
      | inr other ↦ (ground (arith, ins, outs), rest)
    ]

-- Entries for another card leave a card's ledger alone.
All-Balances_other :
    (txns : List GiftCardTxn) (t : GiftCardTxn) (cs : List GiftCard)
    → All (λ c. c.id < t.gift_card_id) cs
    → All (Balances txns) cs
    → All (Balances (txns ++ (t ∷ []))) cs
All-Balances_other txns t [] below h = tt
All-Balances_other txns t (c ∷ cs) (l, ls) (b, bs) = (
  ground (arith, credits-append c.id txns t, debits-append c.id txns t),
  All-Balances_other txns t cs ls bs,
)

All-lt-suc_cards :
    (n : ℕ) (cs : List GiftCard) → All (λ c. c.id < n) cs → All (λ c. c.id < n + 1) cs
All-lt-suc_cards n [] h = tt
All-lt-suc_cards n (c ∷ cs) (l, ls) = (omega arith, All-lt-suc_cards n cs ls)

All-lt-suc_txns :
    (n : ℕ) (ts : List GiftCardTxn)
    → All (λ t. t.gift_card_id < n) ts
    → All (λ t. t.gift_card_id < n + 1) ts
All-lt-suc_txns n [] h = tt
All-lt-suc_txns n (t ∷ ts) (l, ls) = (omega arith, All-lt-suc_txns n ts ls)

pub grown_vault :
    (card : GiftCard) (txn : GiftCardTxn) (v : Vault)
    → IsSound v
    → card.id ≡ v.next_id
    → txn.gift_card_id ≡ v.next_id
    → card.balance + neg_part txn.amount ≡ pos_part txn.amount
    → IsSound (record v {
      cards = v.cards ++ (card ∷ []);
      txns = v.txns ++ (txn ∷ []);
      next_id = v.next_id + 1;
    })
grown_vault card txn v sound fresh own first =
    let (ins, outs) = no_entries v.next_id v.txns sound.txn_ids in
    let below =
      subst (λ n. All (λ c. c.id < n) v.cards) {y = txn.gift_card_id} (ground arith)
        sound.card_ids in
    let own_ledger : Balances (v.txns ++ (txn ∷ [])) card = ground (
      arith,
      credits-append card.id v.txns txn,
      debits-append card.id v.txns txn,
      ap (λ i. credits i v.txns) fresh,
      ap (λ i. debits i v.txns) fresh,
    ) in
    record {
      balanced =
          All-append (Balances (v.txns ++ (txn ∷ []))) v.cards (card ∷ [])
            (All-Balances_other v.txns txn v.cards below sound.balanced) (own_ledger, tt);
      card_ids =
          All-append (λ c. c.id < v.next_id + 1) v.cards (card ∷ [])
            (All-lt-suc_cards v.next_id v.cards sound.card_ids) (omega arith, tt);
      txn_ids =
          All-append (λ t. t.gift_card_id < v.next_id + 1) v.txns (txn ∷ [])
            (All-lt-suc_txns v.next_id v.txns sound.txn_ids) (omega arith, tt);
    }
