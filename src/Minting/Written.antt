-- ===== src/Minting/Written.antt =====
-- What a child of the service has written: a keytab, or a ticket.
use krb5_token_service.Prelude.{
  ◌≡◌, ◌≢◌, sym, subst, ap, ◌∙◌, false, some, ℕ, List, [], Text, codes, is_empty,
}
use krb5_token_service.Prelude.Dict
use krb5_token_service.Python.Utf8.{Bytes}
use krb5_token_service.Errors.{ok}
use krb5_token_service.World.{World, Files, File, Spawned, exited, completed, Outside}
use krb5_token_service.Ccache.{CcacheInfo, parse_ccache}
use krb5_token_service.System.{CompletedProcess, find_file, read_file}
use krb5_token_service.System.Returns.{HasRun-find_file, read_file-ok}
use krb5_token_service.World.{Call}
use krb5_token_service.System.Returns.{HasRun}
use krb5_token_service.Minting.Child.{read_ccache}
use krb5_token_service.Minting.Child.Returns.{read_ccache-ok, is_empty-ne}
use krb5_token_service.Minting.Tickets.{MintedTicket, minted_ticket}

module _ (env : Outside) (call : Call) (found : Files) where
  -- A child that found these files ran to its end with return code 0 and left a file of this name and this content, which is
  -- not empty.
  pub record IsLeft (name : Text) (content : Bytes) : Type 0 where
    pub question : ℕ
    pub stderr : Bytes
    pub files : Files
    pub file : File
    pub answered : env.child question call found ≡ completed (exited 0) stderr files
    pub left : Dict.lookup name files ≡ some file
    pub read : file.content ≡ content
    pub nonempty : content ≢ []

  -- The ticket is the content of a file `ccache` that a child has left, with the principal, the realm
  -- and the times that are read from it.
  pub record IsWritten (minted : MintedTicket) : Type 0 where
    pub ccache : Bytes
    pub info : CcacheInfo
    pub written : IsLeft (codes "ccache") ccache
    pub readable : parse_ccache (env.krb5 (some ccache)) ≡ ok info
    pub given : minted ≡ minted_ticket ccache info

module _ (env : Outside) (call : Call) where
  module _ (tmpdir : Text) (result : CompletedProcess) (before : List Spawned)
      (after at_read : World) (bytes : Bytes) (run : HasRun env tmpdir call result before after)
      (code : result.returncode ≡ exited 0) (same : at_read ≡ after)
      (full : is_empty bytes ≡ false) where
    -- From the run of the child to the file that is read at its end.
    pub IsLeft-read :
        (name : Text)
        → (read_file env tmpdir name at_read).0 ≡ ok bytes
        → IsLeft env call run.found name bytes
    IsLeft-read name read =
        let (file, at_file, content, _) = read_file-ok env tmpdir name at_read bytes read in
        record {
          question = run.question;
          stderr = result.stderr;
          files = run.files;
          file = file;
          answered = run.answered ∙ ap (λ c. completed c result.stderr run.files) code;
          left =
              sym (HasRun-find_file env tmpdir name call result before after run)
              ∙ sym (ap (find_file env tmpdir name) same)
              ∙ at_file;
          read = content;
          nonempty = is_empty-ne bytes full;
        }

    -- From there to the ticket.
    pub IsWritten-read :
        (at_parse : World) (info : CcacheInfo) (minted : MintedTicket)
        → (read_file env tmpdir (codes "ccache") at_read).0 ≡ ok bytes
        → at_parse ≡ (read_file env tmpdir (codes "ccache") at_read).1
        → (read_ccache env tmpdir (codes "ccache") at_parse).0 ≡ ok info
        → minted_ticket bytes info ≡ minted
        → IsWritten env call run.found minted
    IsWritten-read at_parse info minted read quiet parsed e =
        let name = codes "ccache" in
        let (file, at_file, content, same_read) = read_file-ok env tmpdir name at_read bytes read in
        let found = ap (find_file env tmpdir name) (quiet ∙ same_read) ∙ at_file in
        record {
          ccache = bytes;
          info = info;
          written = IsLeft-read name read;
          readable = rw content at (read_ccache-ok env tmpdir name at_parse file info found parsed);
          given = sym e;
        }

module _ (env : Outside) {call call' : Call} {found found' : Files} (e : call ≡ call')
    (k : found ≡ found') where
  -- The same of a call and of files that are the same.
  pub IsLeft-at :
      (name : Text) (content : Bytes)
      → IsLeft env call found name content
      → IsLeft env call' found' name content
  IsLeft-at name content h =
      subst (λ c. IsLeft env c found' name content) e
        (subst (λ f. IsLeft env call f name content) k h)

  pub IsWritten-at :
      (minted : MintedTicket) → IsWritten env call found minted → IsWritten env call' found' minted
  IsWritten-at minted h =
      subst (λ c. IsWritten env c found' minted) e (subst (λ f. IsWritten env call f minted) k h)
