-- ===== src/Orders/Closed.antt =====
-- A bill that is closed stays closed: the operations of apps/api/src/orders/orders.service.ts and
-- apps/api/src/billing/order-ops.service.ts on one bill refuse it.
mod Tests
use stello_kitchens.Prelude.{ℕ, ◌≡◌, refl, ap, ◌∙◌, Bool, false, not, List, Option, some, arith}
use stello_kitchens.Prelude.Texts.{Text}
use stello_kitchens.Orders.Rows.{OrderRow, Db, AuthUser, Error, Result, ok, err, ◌>>=◌, is_open}
use stello_kitchens.Orders.Store.{require_order, lock_open_order}
use stello_kitchens.Orders.Split.{SplitInput, split}
use stello_kitchens.Orders.Void.{set_service_charge, cancel}
use stello_kitchens.Orders.Preview.{CouponRow, DiscountInput, BillPreview, preview}
use stello_kitchens.Orders.Settle.{SettleInput, Shop, Seen, Clock, settle}
use stello_kitchens.Orders.Punch.{LineInput, Kitchen}
use stello_kitchens.Orders.Create.{Moment, put_db, add_items}

lock_open_order-closed :
    (user : AuthUser) (id : ℕ) (db : Db) {o : OrderRow}
    → require_order user id db ≡ ok o
    → is_open o.status ≡ false
    → lock_open_order user id db ≡ err Error.not_open
unfolding lock_open_order
lock_open_order-closed user id db {o} found closed = rw (found, closed) refl

module _ (user : AuthUser) (id : ℕ) where
  -- Whatever is asked of it, a bill of the user's outlets that is no longer open is refused with the same
  -- error by cancel, setServiceCharge, split, addItems, preview and settle.
  pub closed-refused :
      (upper trim : Text → Text) (get_time : Text → Option ℕ) (s : Shop) {o : OrderRow}
      → require_order user id s.db ≡ ok o
      → is_open o.status ≡ false
      → (cancel user id s.db ≡ err Error.not_open)
        × ((waive : Bool) (reason : Option Text)
            → set_service_charge user id waive reason s.db ≡ err Error.not_open)
        × ((input : SplitInput) → split user id input s.db ≡ err Error.not_open)
        × ((k : Kitchen) (items : List LineInput) (m : Moment)
            → add_items user id items m s.db (put_db k s.db) ≡ err Error.not_open)
        × ((now : Text) (input : DiscountInput) (value : ℕ) (seller buyer : Option ℕ)
            → preview upper trim get_time now s.coupons user id input value seller buyer s.db
              ≡ err Error.not_open)
        × ((input : SettleInput) (clock : Clock) (seen : Seen)
            → settle upper trim get_time user id input clock seen s ≡ err Error.not_open)
  unfolding cancel set_service_charge split add_items preview settle
  closed-refused upper trim get_time s {o} found closed =
      let refused = lock_open_order-closed user id s.db {o = o} found closed in
      (
        rw refused refl,
        λ waive reason. rw refused refl,
        λ input. rw refused refl,
        λ k items m. rw (found, refused) refl,
        λ now input value seller buyer. rw (found, closed) refl,
        λ input clock seen. rw refused refl,
      )
