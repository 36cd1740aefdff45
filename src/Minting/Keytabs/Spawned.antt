-- ===== src/Minting/Keytabs/Spawned.antt =====
-- The child that a keytab bootstrap starts, and what is left of its private directory.
use krb5_token_service.Prelude.{
  ℕ, suc, ◌≡◌, refl, ap, ◌∙◌, inl, inr, Option, none, some, [], ◌∷◌, ◌++◌, Text, length, Bool-cases,
  codes, is_empty, if◌then◌else◌,
}
use krb5_token_service.Python.Utf8.{Bytes}
use krb5_token_service.Errors.{Failure, os_error}
use krb5_token_service.World.{World, Spawned, Outside}
use krb5_token_service.Settings.{Settings}
use krb5_token_service.Exec.{pure, catch, ◌>>◌, raise, gets, modify, finally, ◌>>=◌}
use krb5_token_service.Exec.Keeps.{Keeps-pure, Keeps-raise, Keeps-bind, Keeps-if, Keeps-catch}
use krb5_token_service.Exec.Triples.{
  Leads, Leads-weaken, Leads-bind, Leads-finally, Leads-gets, Leads-known, Leads-both,
}
use krb5_token_service.System.{
  CompletedProcess, read_file, read_buffer, new_buffer, extend_buffer, get_buffer, make_root,
  disk_access, next_tick, with_tmpdir,
}
use krb5_token_service.Minting.Buffers.{set}
use krb5_token_service.System.Rooms.{
  Visible, visible, IsQuiet, IsQuiet-emit, IsQuiet-read_file, Room, Done, Left, Left-here,
  Left-zero_buffer, get_buffer-last, set-last,
}
use krb5_token_service.System.Rooms.Steps.{Leads-with_tmpdir, Leads-after}
use krb5_token_service.Minting.Child.Rooms.{Leads-run_subprocess}
use krb5_token_service.Minting.Keytabs.{
  mint_keytab, keytab_in, run_cern_get_keytab, keytab_call, zero_password, check_keytab,
  keytab_failure, keytab_line, no_keytab, empty_keytab,
}

IsQuiet-keytab_failure :
    {A : Type 0} (username : Text) (result : CompletedProcess) (classified : Option Failure)
    → IsQuiet (keytab_failure {A = A} username result classified)
unfolding keytab_failure keytab_line
IsQuiet-keytab_failure username result (some f) =
    Keeps-bind _ _ (Keeps-if _ _ _ (Keeps-pure tt) (IsQuiet-emit _)) (λ _. Keeps-raise _ tt)
IsQuiet-keytab_failure username result none =
    Keeps-bind _ _ (IsQuiet-emit _) (λ _. Keeps-raise _ tt)

IsQuiet-check_keytab :
    (username : Text) (result : CompletedProcess) → IsQuiet (check_keytab username result)
unfolding check_keytab
IsQuiet-check_keytab username result =
    Keeps-if _ _ _ (IsQuiet-keytab_failure username result _) (Keeps-pure tt)

IsQuiet-no_keytab :
    {A : Type 0} (username : Text) (f : Failure) → IsQuiet (no_keytab {A = A} username f)
unfolding no_keytab
IsQuiet-no_keytab username (os_error why) = Keeps-bind _ _ (IsQuiet-emit _) (λ _. Keeps-raise _ tt)
IsQuiet-no_keytab username _ = Keeps-raise _ tt

IsQuiet-empty_keytab : {A : Type 0} (username : Text) → IsQuiet (empty_keytab {A = A} username)
unfolding empty_keytab
IsQuiet-empty_keytab username = Keeps-bind _ _ (IsQuiet-emit _) (λ _. Keeps-raise _ tt)

-- All that follows the run of cern-get-keytab.
pub IsQuiet-keytab_output :
    (env : Outside) (username tmpdir : Text) (result : CompletedProcess)
    → IsQuiet (do
      check_keytab username result
      keytab_bytes ← catch (read_file env tmpdir (codes "keytab")) (no_keytab username)
      if is_empty keytab_bytes then empty_keytab username else pure tt
      pure keytab_bytes)
IsQuiet-keytab_output env username tmpdir result =
    Keeps-bind _ _ (IsQuiet-check_keytab username result) (λ _.
      Keeps-bind _ _
        (Keeps-catch _ _ (IsQuiet-read_file env _ _) (λ f _. IsQuiet-no_keytab username f))
        (λ bytes.
          Keeps-bind _ _ (Keeps-if _ _ _ (IsQuiet-empty_keytab username) (Keeps-pure tt))
            (λ _. Keeps-pure _)))

module _ (env : Outside) (settings : Settings) (username : Text) where
  -- cern-get-keytab for the username, with this input, in an empty directory.
  abbrev pub IsCernGetKeytab : Bytes → Spawned → Type 0
  IsCernGetKeytab stdin s =
      (dir : Text) × (s.call ≡ keytab_call env settings username dir stdin) × (s.found ≡ [])

  Leads-keytab_in :
      (sid : ℕ) (v : Visible) (dir : Text)
      → let Is = IsCernGetKeytab (get_buffer sid v.buffers) in
        Leads visible
          (Room v v.spawned dir [])
          (keytab_in env settings username sid dir)
          (λ _. Done Is v dir)
          (Done Is v dir)
  unfolding keytab_in run_cern_get_keytab read_buffer
  Leads-keytab_in sid v dir =
      let stdin = get_buffer sid v.buffers in
      let Is = IsCernGetKeytab stdin in
      Leads-bind _ _ (Leads-gets _ (λ b. get_buffer sid b.buffers) (λ w. refl)) (λ bs.
        Leads-weaken _ (λ b (k, e). (k, e ∙ rw k.buffers refl)) (λ a b p. p) (λ b p. p)
          (Leads-known (run_cern_get_keytab env settings username dir) bs stdin (
            Leads-bind {Q = λ _. Done Is v dir} _ _
              (Leads-run_subprocess env Is v dir _ _ _ [] (dir, refl, refl))
              (λ result.
                Leads-after env Is v dir _ (IsQuiet-keytab_output env username dir result)))))

  Leads-keytab_for :
      (sid password : ℕ) (v : Visible)
      → let Is = IsCernGetKeytab (get_buffer sid v.buffers) in
        Leads visible
          (λ b. b ≡ v)
          (finally
            (with_tmpdir env settings.ccache_tmp_root (keytab_in env settings username sid))
            (zero_password sid password))
          (λ _. Left Is v)
          (Left Is v)
  unfolding zero_password
  Leads-keytab_for sid password v =
      let Is = IsCernGetKeytab (get_buffer sid v.buffers) in
      Leads-finally _ _ (Leads-with_tmpdir env Is v _ _ (λ dir. Leads-keytab_in sid v dir))
        (λ a w k. Left-zero_buffer Is v _ _ (Left-zero_buffer Is v _ w k))
        (λ w k. Left-zero_buffer Is v _ _ (Left-zero_buffer Is v _ w k))

  -- However `mint_keytab` ends: it has started at most one child, and that is cern-get-keytab for the
  -- username, with the password and a newline as its input and an empty directory. And no temporary
  -- directory is there that was not there before, nor has any other content.
  pub mint_keytab-IsSpawned :
      (password : ℕ) (w : World)
      → Left
          (IsCernGetKeytab (get_buffer password w.buffers ++ 10 ∷ []))
          (visible w)
          (visible (mint_keytab env settings username password w).1)
  unfolding mint_keytab make_root disk_access next_tick ◌>>=◌ pure raise read_buffer new_buffer
      extend_buffer modify gets
  mint_keytab-IsSpawned password w = elim (Bool-cases (env.disk_fails w.ticks)) [
    | inl fails ↦ rw fails (Left-here _ _ _ refl)
    | inr works ↦
        let content = get_buffer password w.buffers in
        let payload = content ++ 10 ∷ [] in
        let copied = w.buffers ++ content ∷ [] in
        let sid = length w.buffers in
        let w' : World = record w {
          buffers = set copied sid (get_buffer sid copied ++ 10 ∷ []);
          ticks = suc w.ticks;
        } in
        let v : Visible = record (visible w) { buffers = w.buffers ++ payload ∷ [] } in
        let k =
          Leads-both _ (Leads-keytab_for sid password v) w' (
            ap (λ bs. record (visible w) { buffers = bs })
              (set-last w.buffers content (10 ∷ []))) in
        let k' = rw (get_buffer-last w.buffers payload) at k in
        rw works (record { children = k'.children; old = k'.old })
  ]
