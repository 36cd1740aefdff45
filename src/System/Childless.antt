-- ===== src/System/Childless.antt =====
-- Actions that start no child, and from what a handler returns to the only child that it starts.
use krb5_token_service.Prelude.{
  ◌≡◌, ◌≢◌, refl, sym, ap, ◌∙◌, subst, inl, inr, arith, ℕ, Option, none, some, length, List, ◌∷◌,
  Text,
}
use krb5_token_service.Python.Utf8.{Bytes}
use krb5_token_service.World.{World, File, Spawned, Outside}
use krb5_token_service.Exec.{Exec}
use krb5_token_service.Exec.Keeps.{Keeps, Keeps-bind, Keeps-modify}
use krb5_token_service.Exec.Triples.{Leads, Leads-weaken, Leads-Keeps, Leads-bind, Leads-finally}
use krb5_token_service.System.{
  with_tmpdir, remove_dir, write_file, put_file, chmod_file, change_mode, find_file, zero_buffer,
  new_buffer, extend_buffer,
}
use krb5_token_service.System.Rooms.{
  Visible, Any, IsQuiet, IsQuiet-disk_access, IsQuiet-next_tick, Started,
}

abbrev pub children : World → List Spawned
children w = w.spawned

-- The action starts no child.
abbrev pub IsChildless : {A : Type 0} → Exec A → Type 0
IsChildless m = Keeps children Any m

pub IsChildless-IsQuiet : {A : Type 0} (m : Exec A) → IsQuiet m → IsChildless m
IsChildless-IsQuiet m k = record { same = λ w. ap Visible.spawned (k.same w); fails = k.fails }

pub IsChildless-new_buffer : (bs : Bytes) → IsChildless (new_buffer bs)
unfolding new_buffer
IsChildless-new_buffer bs = record { same = λ w. refl; fails = λ w. tt }

pub IsChildless-extend_buffer : (i : ℕ) (bs : Bytes) → IsChildless (extend_buffer i bs)
unfolding extend_buffer
IsChildless-extend_buffer i bs = Keeps-modify _ (λ w. refl)

pub children-zero_buffer : (i : Option ℕ) (w : World) → children (zero_buffer i w) ≡ children w
unfolding zero_buffer
children-zero_buffer none w = refl
children-zero_buffer (some i) w = refl

module _ (env : Outside) where
  pub IsChildless-write_file :
      (dir name : Text) (content : Bytes) → IsChildless (write_file env dir name content)
  unfolding write_file put_file
  IsChildless-write_file dir name content =
      Keeps-bind _ _ (IsChildless-IsQuiet _ (IsQuiet-disk_access env))
        (λ _. Keeps-modify _ (λ w. refl))

  children-change_mode :
      (dir name : Text) (mode : ℕ) (o : Option File) (w : World)
      → children (change_mode env dir name mode o w) ≡ children w
  unfolding change_mode
  children-change_mode dir name mode none w = refl
  children-change_mode dir name mode (some file) w = refl

  pub IsChildless-chmod_file :
      (dir name : Text) (mode : ℕ) → IsChildless (chmod_file env dir name mode)
  unfolding chmod_file
  IsChildless-chmod_file dir name mode =
      Keeps-modify _ (λ w. children-change_mode dir name mode (find_file env dir name w) w)

self-ne : (s : Spawned) (before : List Spawned) → s ∷ before ≢ before
self-ne s before e = omega (arith, ap length e)

-- The one child that has started is of this kind.
pub Started-only :
    (Is : Spawned → Type 0) (before after : List Spawned) (s : Spawned)
    → Started Is before after
    → after ≡ s ∷ before
    → Is s
Started-only Is before after s (inl e) h = absurd (self-ne s before (sym h ∙ e))
Started-only Is before after s (inr (x, is, e)) h = subst Is (cc (e, h)) is

module _ {A : Type 0} (before : List Spawned) where
  -- A step before the child.
  pub Leads-childless :
      (m : Exec A)
      → IsChildless m
      → Leads children (λ b. b ≡ before) m (λ a b. b ≡ before) (λ b. Unit)
  Leads-childless m k = Leads-weaken m (λ b p. p) (λ a b p. p) (λ b p. tt) (Leads-Keeps m k)

pub Leads-in_tmpdir :
    {A : Type 0} {Q : A → List Spawned → Type 0} (before : List Spawned) (env : Outside)
    (root : Text) (body : Text → Exec A)
    → ((dir : Text) → Leads children (λ b. b ≡ before) (body dir) Q (λ b. Unit))
    → Leads children (λ b. b ≡ before) (with_tmpdir env root body) Q (λ b. Unit)
unfolding with_tmpdir remove_dir
Leads-in_tmpdir before env root body k =
    Leads-bind _ _ (Leads-childless before _ (IsChildless-IsQuiet _ (IsQuiet-disk_access env)))
      (λ _.
        Leads-bind _ _ (Leads-childless before _ (IsChildless-IsQuiet _ IsQuiet-next_tick)) (λ n.
          Leads-bind _ _ (Leads-childless before _ (Keeps-modify _ (λ w. refl)))
            (λ _. Leads-finally _ _ (k _) (λ a w q. q) (λ w q. q))))
