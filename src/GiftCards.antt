-- ===== src/GiftCards.antt =====
-- apps/api/src/gift-cards/gift-cards.service.ts: cards of one tenant with their ledger. The columns of
-- amounts have two decimals, so they are in paise; a signed amount is an integer. A date is the number
-- of its day, `today` that of the request. The random code of a new card is an argument.
pub mod Ledger
pub mod Laws
pub mod Redeem
mod Tests
use stello_kitchens.Prelude.{
  ℕ, ◌+◌, ◌-◌, Bool, true, false, not, ◌||◌, List, [], ◌∷◌, ◌++◌, map, Option, none, some, ltb, leb,
  if◌then◌else◌, ◌==◌, keep,
}
use stello_kitchens.Prelude.Texts.{Text, same_text, text_lt, is_space}
use stello_kitchens.Prelude.Rounding.{round_div}
use stello_kitchens.Prelude.Int.{ℤ, pos, sub_ℕ}
use stello_kitchens.Money.{paisa}
use stello_kitchens.Service.{
  AuthUser, Action, AuditEntry, Error, Result, ok, err, ◌>>=◌, ◌>>◌, refuse_if, or_err,
}

pub data CardStatus : Type 0 where
  active void : CardStatus

pub data CardKind : Type 0 where
  gift_card store_credit : CardKind

pub record GiftCard : Type 0 where
  pub id : ℕ
  pub code : Text
  pub kind : CardKind
  pub issued_outlet_id : ℕ
  pub initial_value : ℕ
  pub balance : ℕ
  pub expires_on : Option ℕ
  pub status : CardStatus

pub data TxnType : Type 0 where
  issued redeemed voided credited : TxnType

pub record GiftCardTxn : Type 0 where
  pub gift_card_id : ℕ
  pub outlet_id : ℕ
  pub type : TxnType
  pub amount : ℤ
  pub balance_after : ℕ
  pub order_id : Option ℕ
  pub user_id : Option ℕ

pub data MovementType : Type 0 where
  pay_in sale : MovementType

-- A movement of cash in the drawer of a session.
pub record CashMovement : Type 0 where
  pub session_id : ℕ
  pub type : MovementType
  pub amount : ℕ
  pub order_id : Option ℕ

pub record CashSession : Type 0 where
  pub id : ℕ
  pub outlet_id : ℕ
  pub is_open : Bool

pub record Vault : Type 0 where
  pub cards : List GiftCard
  pub txns : List GiftCardTxn
  pub sessions : List CashSession
  pub movements : List CashMovement
  pub audit_log : List AuditEntry
  pub next_id : ℕ

abbrev pub is_active : CardStatus → Bool
is_active active = true
is_active void = false

abbrev pub is_expired : ℕ → Option ℕ → Bool
is_expired today none = false
is_expired today (some day) = ltb day today

-- The first card with this code.
unfoldable pub find_code : Text → List GiftCard → Option GiftCard
find_code code [] = none
find_code code (c ∷ cs) =
    let rest = find_code code cs in if same_text c.code code then some c else rest

unfoldable pub find_card : ℕ → List GiftCard → Option GiftCard
find_card id [] = none
find_card id (c ∷ cs) = let rest = find_card id cs in if c.id == id then some c else rest

unfoldable pub update_card : ℕ → (GiftCard → GiftCard) → List GiftCard → List GiftCard
update_card id f = map (λ c. if c.id == id then f c else c)

-- What one code has to pay, in paise.
pub record CodeAmount : Type 0 where
  pub code : Text
  pub paise : ℕ

-- `byCode.set(code, (byCode.get(code) ?? 0) + paise)`.
unfoldable pub add_code : Text → ℕ → List CodeAmount → List CodeAmount
add_code code p [] = record { code = code; paise = p } ∷ []
add_code code p (e ∷ es) =
    let rest = add_code code p es in
    if same_text e.code code then record { code = e.code; paise = e.paise + p } ∷ es else e ∷ rest

-- A payment by card: its code as typed, and rupees.
pub record CardPayment : Type 0 where
  pub code : Text
  pub amount : ℕ

-- The keys of the map in order.
unfoldable pub insert_code : CodeAmount → List CodeAmount → List CodeAmount
insert_code e [] = e ∷ []
insert_code e (x ∷ xs) =
    let rest = insert_code e xs in if text_lt x.code e.code then x ∷ rest else e ∷ (x ∷ xs)

unfoldable pub sort_codes : List CodeAmount → List CodeAmount
unfolding insert_code
sort_codes [] = []
sort_codes (e ∷ es) = insert_code e (sort_codes es)

pub record Redemption : Type 0 where
  pub outlet_id : ℕ
  pub order_id : ℕ
  pub user_id : Option ℕ

abbrev pub with_balance : ℕ → GiftCard → GiftCard
with_balance b c = record c { balance = b }

-- A card pays: its balance falls, and the ledger says so.
unfoldable pub charge : Redemption → GiftCard → ℕ → Vault → Vault
unfolding update_card
charge r card amount v =
    let after = card.balance - amount in
    record v {
      cards = update_card card.id (with_balance after) v.cards;
      txns =
          v.txns
          ++ (record {
            gift_card_id = card.id;
            outlet_id = r.outlet_id;
            type = redeemed;
            amount = sub_ℕ 0 amount;
            balance_after = after;
            order_id = some r.order_id;
            user_id = r.user_id;
          }
              ∷ []);
    }

-- One round of the loop over the codes.
unfoldable pub redeem_code : ℕ → Redemption → CodeAmount → Vault → Result Vault
unfolding find_code charge
redeem_code today r e v = do
  card ← or_err (find_code e.code v.cards) Error.card_not_found
  refuse_if (not (is_active card.status)) Error.card_void
  refuse_if (is_expired today card.expires_on) Error.card_expired
  refuse_if (ltb card.balance e.paise) Error.card_balance
  ok (charge r card e.paise v)

unfoldable pub redeem_codes : ℕ → Redemption → List CodeAmount → Vault → Result Vault
unfolding redeem_code
redeem_codes today r [] v = ok v
redeem_codes today r (e ∷ es) v = do next ← redeem_code today r e v; redeem_codes today r es next

-- A new card with its first entry of the ledger; the code is unique in the tenant.
unfoldable pub add_card : GiftCard → GiftCardTxn → Vault → Result Vault
unfolding find_code
add_card card txn v = elim (find_code card.code v.cards) [
  | some _ ↦ err Error.code_taken
  | none ↦ ok (record v {
    cards = v.cards ++ (card ∷ []);
    txns = v.txns ++ (txn ∷ []);
    next_id = v.next_id + 1;
  })
]

-- `issueStoreCreditTx`.
unfoldable pub issue_store_credit : Text → ℕ → ℕ → Option ℕ → Option ℕ → Vault → Result Vault
unfolding add_card
issue_store_credit code outlet amount order_id user_id v =
    add_card
      (record {
        id = v.next_id;
        code = code;
        kind = store_credit;
        issued_outlet_id = outlet;
        initial_value = amount;
        balance = amount;
        expires_on = none;
        status = active;
      })
      (record {
        gift_card_id = v.next_id;
        outlet_id = outlet;
        type = credited;
        amount = pos amount;
        balance_after = amount;
        order_id = order_id;
        user_id = user_id;
      })
      v

unfoldable pub open_session : ℕ → List CashSession → Option CashSession
open_session outlet [] = none
open_session outlet (s ∷ ss) =
    let rest = open_session outlet ss in
    if (if s.is_open then s.outlet_id == outlet else false) then some s else rest

abbrev pub log_card : AuthUser → Action → ℕ → Vault → Vault
log_card user action id v = record v {
  audit_log = v.audit_log ++ (record { user_id = user.id; action = action; entity_id = id } ∷ []);
}

-- Cash that was taken goes into the open drawer, if there is one.
unfoldable pub pay_into : ℕ → MovementType → ℕ → Option ℕ → Vault → Vault
unfolding open_session
pay_into outlet type amount order_id v = elim (open_session outlet v.sessions) [
  | none ↦ v
  | some s ↦ record v {
    movements =
        v.movements
        ++ (record { session_id = s.id; type = type; amount = amount; order_id = order_id } ∷ []);
  }
]

abbrev pub has_access : AuthUser → ℕ → Bool
has_access user outlet = elim (keep (λ o. o == outlet) user.outlet_ids) [
  | [] ↦ false
  | _ ∷ _ ↦ true
]

unfoldable pub issue : AuthUser → ℕ → ℕ → Text → ℕ → Option ℕ → Bool → Vault → Result Vault
unfolding add_card pay_into
issue user outlet today code amount expires_on by_cash v = do
  refuse_if (not (has_access user outlet)) Error.forbidden
  refuse_if (is_expired today expires_on) Error.expiry_past
  made ←
      add_card
        (record {
          id = v.next_id;
          code = code;
          kind = gift_card;
          issued_outlet_id = outlet;
          initial_value = amount;
          balance = amount;
          expires_on = expires_on;
          status = active;
        })
        (record {
          gift_card_id = v.next_id;
          outlet_id = outlet;
          type = issued;
          amount = pos amount;
          balance_after = amount;
          order_id = none;
          user_id = some user.id;
        })
        v
  let paid = if by_cash then pay_into outlet pay_in amount none made else made
  ok (log_card user Action.gift_card_issued v.next_id paid)

abbrev pub voided_card : GiftCard → GiftCard
voided_card c = record c { status = void; balance = 0 }

unfoldable pub void_card : AuthUser → ℕ → Vault → Result Vault
unfolding find_card update_card
void_card user id v = do
  card ← or_err (find_card id v.cards) Error.not_found
  refuse_if (not (is_active card.status)) Error.card_void
  let entry : GiftCardTxn = record {
    gift_card_id = id;
    outlet_id = card.issued_outlet_id;
    type = voided;
    amount = sub_ℕ 0 card.balance;
    balance_after = 0;
    order_id = none;
    user_id = some user.id;
  }
  ok (
      log_card user Action.gift_card_voided id
        (record v { cards = update_card id voided_card v.cards; txns = v.txns ++ (entry ∷ []) }))

-- `normaliseGiftCode`; `toUpperCase` is the platform's.
module _ (upper : Text → Text) where
  abbrev pub in_code : ℕ → Bool
  in_code c = not (is_space c || c == b'-')

  unfoldable pub normalise_gift_code : Text → Text
  unfolding is_space
  normalise_gift_code code = keep in_code (upper code)

  unfoldable pub by_code : List CardPayment → List CodeAmount → List CodeAmount
  unfolding add_code normalise_gift_code
  by_code [] codes = codes
  by_code (p ∷ ps) codes =
      by_code ps (add_code (normalise_gift_code p.code) (round_div p.amount paisa) codes)

  -- `redeemGiftCardsTx`.
  unfoldable pub redeem_gift_cards : ℕ → Redemption → List CardPayment → Vault → Result Vault
  unfolding by_code sort_codes redeem_codes
  redeem_gift_cards today r payments v = redeem_codes today r (sort_codes (by_code payments [])) v
