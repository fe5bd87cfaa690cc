-- ===== src/GiftCards/Laws.antt =====
-- Whatever is issued, redeemed and voided, the balances are what the ledger says.
use mathlib.Core.Path.{subst}
use stello_kitchens.Prelude.{
  ℕ, ◌+◌, Bool, ◌-◌, ◌≤◌, ◌<◌, ◌≡◌, inl, inr, refl, ap, List, [], ◌∷◌, ◌++◌, Option, none, some,
  arith, All, if◌then◌else◌, Option-cases, All-append,
}
use stello_kitchens.Prelude.Int.{pos, sub_ℕ, pos_part, neg_part}
use stello_kitchens.Prelude.Texts.{Text}
use stello_kitchens.Service.{AuthUser, ok, Result-cases}
use stello_kitchens.GiftCards.Ledger.{
  IsSound, Balances, find_code-All, find_card-All, find_card-id, entry-Balances, update_card-ids,
  grown_vault, credits, debits,
}
use stello_kitchens.GiftCards.{
  GiftCard, GiftCardTxn, TxnType, CardKind, CardStatus, Vault, CodeAmount, Redemption, CardPayment,
  find_code, find_card, update_card, with_balance, charge, redeem_code, redeem_codes,
  redeem_gift_cards, sort_codes, by_code, add_card, issue, issue_store_credit, void_card,
  voided_card, pay_into, MovementType,
}

charge-IsSound :
    (r : Redemption) (card : GiftCard) (amount : ℕ) (v : Vault)
    → IsSound v
    → Balances v.txns card
    → card.id < v.next_id
    → amount ≤ card.balance
    → IsSound (charge r card amount v)
unfolding charge
charge-IsSound r card amount v sound balances known enough =
    let after = card.balance - amount in
    let t : GiftCardTxn = record {
      gift_card_id = card.id;
      outlet_id = r.outlet_id;
      type = TxnType.redeemed;
      amount = sub_ℕ 0 amount;
      balance_after = after;
      order_id = some r.order_id;
      user_id = r.user_id;
    } in
    record {
      balanced =
          entry-Balances v.txns t (with_balance after) v.cards (λ c. refl)
            (λ c e b. ground (arith, ap (λ i. credits i v.txns) e, ap (λ i. debits i v.txns) e))
            sound.balanced;
      card_ids =
          update_card-ids v.next_id card.id (with_balance after) v.cards (λ c. refl) sound.card_ids;
      txn_ids =
          All-append (λ x. x.gift_card_id < v.next_id) v.txns (t ∷ []) sound.txn_ids (known, tt);
    }

pub redeem_code-IsSound :
    (today : ℕ) (r : Redemption) (e : CodeAmount) (v : Vault) {after : Vault}
    → IsSound v
    → redeem_code today r e v ≡ ok after
    → IsSound after
unfolding redeem_code
redeem_code-IsSound today r e v {after} sound h = elim (Option-cases (find_code e.code v.cards)) [
  | inl missing ↦ absurd (ground arith)
  | inr (card, found) ↦
      let b = find_code-All (Balances v.txns) e.code v.cards {c = card} sound.balanced found in
      let known =
        find_code-All (λ c. c.id < v.next_id) e.code v.cards {c = card} sound.card_ids found in
      subst IsSound {x = charge r card e.paise v} {y = after} (ground arith)
        (charge-IsSound r card e.paise v sound b known (ground arith))
]

pub redeem_codes-IsSound :
    (today : ℕ) (r : Redemption) (es : List CodeAmount) (v : Vault) {after : Vault}
    → IsSound v
    → redeem_codes today r es v ≡ ok after
    → IsSound after
unfolding redeem_codes
redeem_codes-IsSound today r [] v sound h = subst IsSound (ground arith) sound
redeem_codes-IsSound today r (e ∷ es) v {after} sound h =
    elim (Result-cases (redeem_code today r e v)) [
      | inl (x, refused) ↦ absurd (ground arith)
      | inr (next, done) ↦
          redeem_codes-IsSound today r es next {after = after}
            (redeem_code-IsSound today r e v {after = next} sound done) (ground arith)
    ]

add_card-IsSound :
    (card : GiftCard) (txn : GiftCardTxn) (v : Vault) {after : Vault}
    → IsSound v
    → card.id ≡ v.next_id
    → txn.gift_card_id ≡ v.next_id
    → card.balance + neg_part txn.amount ≡ pos_part txn.amount
    → add_card card txn v ≡ ok after
    → IsSound after
unfolding add_card
add_card-IsSound card txn v {after} sound fresh own first h =
    elim (Option-cases (find_code card.code v.cards)) [
      | inl free ↦
          subst IsSound {y = after} (ground arith) (grown_vault card txn v sound fresh own first)
      | inr (c, taken) ↦ absurd (ground arith)
    ]

-- Only the cards and the entries count.
pub carry-IsSound :
    (v w : Vault)
    → v.cards ≡ w.cards
    → v.txns ≡ w.txns
    → v.next_id ≡ w.next_id
    → IsSound v
    → IsSound w
carry-IsSound v w cards txns ids sound = record {
  balanced =
      subst (λ ts. All (Balances ts) w.cards) txns
        (subst (All (Balances v.txns)) cards sound.balanced);
  card_ids =
      subst (λ n. All (λ c. c.id < n) w.cards) ids
        (subst (All (λ c. c.id < v.next_id)) cards sound.card_ids);
  txn_ids =
      subst (λ n. All (λ t. t.gift_card_id < n) w.txns) ids
        (subst (All (λ t. t.gift_card_id < v.next_id)) txns sound.txn_ids);
}

pub pay_into-keeps :
    (outlet : ℕ) (type : MovementType) (amount : ℕ) (order_id : Option ℕ) (v : Vault)
    → let w = pay_into outlet type amount order_id v in
      (v.cards ≡ w.cards) × (v.txns ≡ w.txns) × (v.next_id ≡ w.next_id)
unfolding pay_into
pay_into-keeps outlet type amount order_id v = ground arith

-- Issuing a card keeps the ledger sound.
pub issue-IsSound :
    (user : AuthUser) (outlet today : ℕ) (code : Text) (amount : ℕ) (expires_on : Option ℕ)
    (by_cash : Bool) (v : Vault) {after : Vault}
    → IsSound v
    → issue user outlet today code amount expires_on by_cash v ≡ ok after
    → IsSound after
unfolding issue
issue-IsSound user outlet today code amount expires_on by_cash v {after} sound h =
    let card : GiftCard = record {
      id = v.next_id;
      code = code;
      kind = CardKind.gift_card;
      issued_outlet_id = outlet;
      initial_value = amount;
      balance = amount;
      expires_on = expires_on;
      status = CardStatus.active;
    } in
    let txn : GiftCardTxn = record {
      gift_card_id = v.next_id;
      outlet_id = outlet;
      type = TxnType.issued;
      amount = pos amount;
      balance_after = amount;
      order_id = none;
      user_id = some user.id;
    } in
    elim (Result-cases (add_card card txn v)) [
      | inl (x, refused) ↦ absurd (ground arith)
      | inr (made, done) ↦
          let paid =
            if by_cash then pay_into outlet MovementType.pay_in amount none made else made in
          let kept = pay_into-keeps outlet MovementType.pay_in amount none made in
          carry-IsSound made after (ground arith) (ground arith) (ground arith)
            (add_card-IsSound card txn v {after = made} sound refl refl (omega arith) done)
    ]

pub issue_store_credit-IsSound :
    (code : Text) (outlet amount : ℕ) (order_id user_id : Option ℕ) (v : Vault) {after : Vault}
    → IsSound v
    → issue_store_credit code outlet amount order_id user_id v ≡ ok after
    → IsSound after
unfolding issue_store_credit
issue_store_credit-IsSound code outlet amount order_id user_id v {after} sound h =
    add_card-IsSound _ _ v {after = after} sound refl refl (omega arith) h

pub void_card-IsSound :
    (user : AuthUser) (id : ℕ) (v : Vault) {after : Vault}
    → IsSound v
    → void_card user id v ≡ ok after
    → IsSound after
unfolding void_card
void_card-IsSound user id v {after} sound h = elim (Option-cases (find_card id v.cards)) [
  | inl missing ↦ absurd (ground arith)
  | inr (card, found) ↦
      let t : GiftCardTxn = record {
        gift_card_id = id;
        outlet_id = card.issued_outlet_id;
        type = TxnType.voided;
        amount = sub_ℕ 0 card.balance;
        balance_after = 0;
        order_id = none;
        user_id = some user.id;
      } in
      let b = find_card-All (Balances v.txns) id v.cards {c = card} sound.balanced found in
      let known =
        find_card-All (λ c. c.id < v.next_id) id v.cards {c = card} sound.card_ids found in
      let own = find_card-id id v.cards {c = card} found in
      let w : Vault = record v {
        cards = update_card id voided_card v.cards;
        txns = v.txns ++ (t ∷ []);
      } in
      carry-IsSound w after (ground arith) (ground arith) (ground arith) (record {
        balanced =
            entry-Balances v.txns t voided_card v.cards (λ c. refl)
              (λ c e bc. ground (
                arith,
                ap (λ i. credits i v.txns) e,
                ap (λ i. debits i v.txns) e,
                ap (λ i. credits i v.txns) own,
                ap (λ i. debits i v.txns) own,
              ))
              sound.balanced;
        card_ids = update_card-ids v.next_id id voided_card v.cards (λ c. refl) sound.card_ids;
        txn_ids =
            All-append (λ x. x.gift_card_id < v.next_id) v.txns (t ∷ []) sound.txn_ids
              (ground arith, tt);
      })
]

-- One request on the cards of a tenant.
pub data Step (upper : Text → Text) : Vault → Vault → Type 0 where
  issuing :
      {v w : Vault} (user : AuthUser) (outlet today : ℕ) (code : Text) (amount : ℕ)
      (expires_on : Option ℕ) (by_cash : Bool)
      → issue user outlet today code amount expires_on by_cash v ≡ ok w
      → Step upper v w
  crediting :
      {v w : Vault} (code : Text) (outlet amount : ℕ) (order_id user_id : Option ℕ)
      → issue_store_credit code outlet amount order_id user_id v ≡ ok w
      → Step upper v w
  redeeming :
      {v w : Vault} (today : ℕ) (r : Redemption) (payments : List CardPayment)
      → redeem_gift_cards upper today r payments v ≡ ok w
      → Step upper v w
  voiding : {v w : Vault} (user : AuthUser) (id : ℕ) → void_card user id v ≡ ok w → Step upper v w

pub data Reach (upper : Text → Text) (v : Vault) : Vault → Type 0 where
  here : Reach upper v v
  next : {w x : Vault} → Reach upper v w → Step upper w x → Reach upper v x

pub Step-IsSound : {upper : Text → Text} {v w : Vault} → Step upper v w → IsSound v → IsSound w
unfolding redeem_gift_cards
Step-IsSound {v = v} {w = w} (issuing user outlet today code amount expires_on by_cash h) sound =
    issue-IsSound user outlet today code amount expires_on by_cash v {after = w} sound h
Step-IsSound {v = v} {w = w} (crediting code outlet amount order_id user_id h) sound =
    issue_store_credit-IsSound code outlet amount order_id user_id v {after = w} sound h
Step-IsSound {upper} {v = v} {w = w} (redeeming today r payments h) sound =
    redeem_codes-IsSound today r (sort_codes (by_code upper payments [])) v {after = w} sound h
Step-IsSound {v = v} {w = w} (voiding user id h) sound =
    void_card-IsSound user id v {after = w} sound h

-- However many cards are issued, credited, redeemed and voided, every balance stays what the ledger
-- says: what was put on the card less what was taken off it.
pub Reach-IsSound : {upper : Text → Text} {v w : Vault} → IsSound v → Reach upper v w → IsSound w
Reach-IsSound sound here = sound
Reach-IsSound sound (next r step) = Step-IsSound step (Reach-IsSound sound r)
