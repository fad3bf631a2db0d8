-- ===== src/Records/Rules.antt =====
-- What a service method keeps of the table of orders, method by method: the rules for the parts that
-- methods are made of. Before it and after it, rows with certain terms are there.
use uvipystock.Prelude.{
  ℕ, suc, ◌+◌, ◌≡◌, refl, sym, subst, ◌∙◌, arith, Bool, true, false, List, [], ◌∷◌, ◌++◌,
  if◌then◌else◌, Option, none, some, map, All, All-append,
}
use uvipystock.Model.{World}
use uvipystock.Model.Rows.{Order}
use uvipystock.Redis.{Command}
use uvipystock.Exec.{
  Exec, Error, Result, ok, err, pure, raise, gets, or_raise, bind_result, ◌>>=◌, raise_if, when,
  modify, send, catch, commit, transaction,
}
use uvipystock.Balance.Laws.{IsSound}
use uvipystock.Orders.Repo.{get_order, put_order}
use uvipystock.Orders.Place.{insert_order, save}
use uvipystock.Records.Table.{
  Terms, terms, Stands, IsNumbered, append-IsNumbered, append-Stands, new-Stands, put_at,
  put-IsNumbered, get_order-Stands, map_at, map-IsNumbered,
}

abbrev pub Numbered : World → Type 0
Numbered w = IsNumbered w.next_order_id w.orders

-- Ids are still used once and below the sequence, no row is lost or has other terms, and balanced
-- rows of balances are balanced still.
pub record Kept (w w' : World) : Type 0 where
  pub numbered : Numbered w'
  pub later : (t : Terms) → Stands t w.orders → Stands t w'.orders
  pub sound : IsSound w.balances → IsSound w'.balances

abbrev pub AllStand : List Terms → World → Type 0
AllStand ts w = All (λ t. Stands t w.orders) ts

-- What holds of a method's result, where it returns.
abbrev pub Returned : {A : Type 0} → (A → List Terms) → Result A → World → Type 0
Returned us (ok a) w = AllStand (us a) w
Returned us (err e) w = Unit

abbrev pub Post : {A : Type 0} → (A → List Terms) → World → Result A × World → Type 0
Post us w r = Kept w r.1 × Returned us r.0 r.1

pub record Does {A : Type 0} (ts : List Terms) (m : Exec A) (us : A → List Terms) : Type 0 where
  pub run : (w : World) → Numbered w → AllStand ts w → Post us w (m w)

abbrev pub nothing : {A : Type 0} → A → List Terms
nothing _ = []

pub Kept-AllStand : {w w' : World} (ts : List Terms) → Kept w w' → AllStand ts w → AllStand ts w'
Kept-AllStand [] k a = tt
Kept-AllStand (t ∷ ts) k a = (k.later t a.0, Kept-AllStand ts k a.1)

pub Kept-refl : {w : World} → Numbered w → Kept w w
Kept-refl n = record { numbered = n; later = λ t s. s; sound = λ h. h }

pub Kept-trans : {w w' w'' : World} → Kept w w' → Kept w' w'' → Kept w w''
Kept-trans k l = record {
  numbered = l.numbered;
  later = λ t s. l.later t (k.later t s);
  sound = λ h. l.sound (k.sound h);
}

bind-result :
    {A B : Type 0} (ts : List Terms) (us : A → List Terms) (vs : B → List Terms) (f : A → Exec B)
    (w : World) (r : Result A) (w' : World)
    → ((a : A) → Does (us a ++ ts) (f a) vs)
    → AllStand ts w
    → Post us w (r, w')
    → Post vs w (bind_result r w' f)
bind-result ts us vs f w (ok a) w' next h p =
    let q =
      (next a).run w' p.0.numbered
        (All-append (λ t. Stands t w'.orders) (us a) ts p.1 (Kept-AllStand ts p.0 h)) in
    (Kept-trans p.0 q.0, q.1)
bind-result ts us vs f w (err e) w' next h p = (p.0, tt)

pub Does-bind :
    {A B : Type 0} {ts : List Terms} {us : A → List Terms} {vs : B → List Terms} {m : Exec A}
    {f : A → Exec B}
    → Does ts m us
    → ((a : A) → Does (us a ++ ts) (f a) vs)
    → Does ts (m >>= f) vs
Does-bind {ts} {us} {vs} {m} {f} d next = record {
  run = λ w n h. bind-result ts us vs f w (m w).0 (m w).1 next h (d.run w n h);
}

-- The next id and the rows are as they were, and balances that are balanced stay so.
abbrev pub Same : World → World → Type 0
Same w w' =
    (w'.orders ≡ w.orders)
    × (w'.next_order_id ≡ w.next_order_id)
    × (IsSound w.balances → IsSound w'.balances)

abbrev pub Leaves : {A : Type 0} → Exec A → Type 0
Leaves m = (w : World) → Same w (m w).1

Same-Kept : {w w' : World} → Numbered w → Same w w' → Kept w w'
Same-Kept {w} {w'} n s = record {
  numbered =
      subst (λ os. IsNumbered w'.next_order_id os) (sym s.0)
        (subst (λ k. IsNumbered k w.orders) (sym s.1) n);
  later = λ t st. subst (Stands t) (sym s.0) st;
  sound = s.2;
}

Returned-nothing : {A : Type 0} (r : Result A) (w : World) → Returned nothing r w
Returned-nothing (ok a) w = tt
Returned-nothing (err e) w = tt

pub Leaves-Does : {A : Type 0} (ts : List Terms) (m : Exec A) → Leaves m → Does ts m nothing
Leaves-Does ts m l = record { run = λ w n h. (Same-Kept n (l w), Returned-nothing (m w).0 (m w).1) }

pub pure-Does :
    {A : Type 0} (ts : List Terms) (a : A) (us : A → List Terms)
    → ((w : World) → AllStand ts w → AllStand (us a) w)
    → Does ts (pure a) us
pure-Does ts a us h = record { run = λ w n s. (Kept-refl n, h w s) }

pub raise-Does :
    {A : Type 0} (ts : List Terms) (e : Error) (us : A → List Terms) → Does ts (raise e) us
raise-Does ts e us = record { run = λ w n s. (Kept-refl n, tt) }

suc_last : (n : ℕ) → suc n ≡ n + 1
suc_last n = omega arith

-- What stands of an optional row.
abbrev pub found : Option Order → List Terms
found none = []
found (some o) = terms o ∷ []

pub found-get_order :
    (os : List Order) (id : ℕ) (w : World) (r : Option Order)
    → get_order w.orders id ≡ r
    → AllStand (found r) w
found-get_order os id w none e = tt
found-get_order os id w (some o) e = (get_order-Stands w.orders id o e, tt)

pub read-Does : (ts : List Terms) (id : ℕ) → Does ts (gets (λ w. get_order w.orders id)) found
read-Does ts id = record {
  run = λ w n s. (Kept-refl n, found-get_order w.orders id w (get_order w.orders id) refl);
}

pub or_raise-Does :
    (ts : List Terms) (r : Option Order) (e : Error)
    → Does (found r ++ ts) (or_raise r e) (λ o. terms o ∷ [])
or_raise-Does ts none e = record { run = λ w n s. (Kept-refl n, tt) }
or_raise-Does ts (some o) e = record { run = λ w n s. (Kept-refl n, (s.0, tt)) }

pub insert-Does : (ts : List Terms) (o : Order) → Does ts (insert_order o) (λ p. terms p ∷ [])
unfolding insert_order
insert-Does ts o = record {
  run = λ w n s.
      let q = record o { id = w.next_order_id } in
      (
        record {
          numbered =
              subst (λ k. IsNumbered k (w.orders ++ q ∷ [])) (suc_last w.next_order_id)
                (append-IsNumbered q w.orders w.next_order_id refl n);
          later = λ t st. append-Stands q w.orders w.next_order_id t refl n st;
          sound = λ h. h;
        },
        (new-Stands q w.orders w.next_order_id refl n, tt),
      );
}

-- Writing back a row with terms that stand.
put-Kept :
    (o : Order) (w : World)
    → Numbered w
    → Stands (terms o) w.orders
    → Kept w (record w { orders = put_order o w.orders })
put-Kept o w n s = record {
  numbered = put-IsNumbered o w.next_order_id w.orders s n;
  later = λ t st. put_at o w.orders t.id s ∙ st;
  sound = λ h. h;
}

pub save-Does :
    (ts : List Terms) (o : Order)
    → ((w : World) → AllStand ts w → Stands (terms o) w.orders)
    → Does ts (save o) (λ p. terms p ∷ [])
save-Does ts o h = record {
  run = λ w n s. (put-Kept o w n (h w s), (put_at o w.orders o.id (h w s) ∙ h w s, tt));
}

pub modify-Does :
    (ts : List Terms) (o : Order)
    → ((w : World) → AllStand ts w → Stands (terms o) w.orders)
    → Does ts (modify (λ w. record w { orders = put_order o w.orders })) nothing
modify-Does ts o h = record { run = λ w n s. (put-Kept o w n (h w s), tt) }

-- A change of every row that keeps its terms.
pub rows-Does :
    (ts : List Terms) (f : Order → Order) (g : List Order → List Order)
    → ((o : Order) → terms (f o) ≡ terms o)
    → ((os : List Order) → g os ≡ map f os)
    → Does ts (modify (λ w. record w { orders = g w.orders })) nothing
rows-Does ts f g same e = record {
  run = λ w n s. (
    record {
      numbered =
          subst (IsNumbered w.next_order_id) (sym (e w.orders))
            (map-IsNumbered f same w.next_order_id w.orders n);
      later = λ t st. subst (Stands t) (sym (e w.orders)) (map_at f same w.orders t.id ∙ st);
      sound = λ h. h;
    },
    tt,
  );
}

module _ {A : Type 0} (ts : List Terms) (us : A → List Terms) where
  module _ (h : Error → Exec A) (k : (e : Error) → Does ts (h e) us) where
    catch-result :
        (w : World) (r : Result A) (w' : World)
        → AllStand ts w
        → Post us w (r, w')
        → Post us w (catch (λ v. (r, w')) h w)
    catch-result w (ok a) w' s p = p
    catch-result w (err e) w' s p =
        let q = (k e).run w' p.0.numbered (Kept-AllStand ts p.0 s) in (Kept-trans p.0 q.0, q.1)

    pub catch-Does : (m : Exec A) → Does ts m us → Does ts (catch m h) us
    catch-Does m d = record { run = λ w n s. catch-result w (m w).0 (m w).1 s (d.run w n s) }

  commit-result :
      (w : World) (r : Result A) (w' : World)
      → Numbered w
      → Post us w (r, w')
      → Post us w (commit r w w')
  commit-result w (ok a) w' n p = p
  commit-result w (err e) w' n p = (record { numbered = n; later = λ t s. s; sound = λ h. h }, tt)

  pub transaction-Does : (m : Exec A) → Does ts m us → Does ts (transaction m) us
  unfolding transaction
  transaction-Does m d = record { run = λ w n s. commit-result w (m w).0 (m w).1 n (d.run w n s) }

-- The parts that leave the table alone.
module _ (ts : List Terms) where
  pub send-Does : (cs : List Command) → Does ts (send cs) nothing
  send-Does cs = Leaves-Does ts (send cs) (λ w. (refl, refl, λ h. h))

  pub raise_if-Does : (b : Bool) (e : Error) → Does ts (raise_if b e) nothing
  raise_if-Does true e = raise-Does {A = Unit {0}} ts e nothing
  raise_if-Does false e = pure-Does ts tt nothing (λ w s. tt)

  pub when-Does : (b : Bool) (m : Exec (Unit {0})) → Does ts m nothing → Does ts (when b m) nothing
  when-Does true m d = d
  when-Does false m d = pure-Does ts tt nothing (λ w s. tt)

  pub or_raise-nothing : {A : Type 0} (r : Option A) (e : Error) → Does ts (or_raise r e) nothing
  or_raise-nothing {A} none e = raise-Does {A = A} ts e nothing
  or_raise-nothing (some a) e = pure-Does ts a nothing (λ w s. tt)

  pub gets-Does : {A : Type 0} (f : World → A) → Does ts (gets f) nothing
  gets-Does f = Leaves-Does ts (gets f) (λ w. (refl, refl, λ h. h))

pub if-Does :
    {A : Type 0} {ts : List Terms} {us : A → List Terms} {m k : Exec A} (b : Bool)
    → Does ts m us
    → Does ts k us
    → Does ts (if b then m else k) us
if-Does true d e = d
if-Does false d e = e
