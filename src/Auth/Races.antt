-- ===== src/Auth/Races.antt =====
use safe_shield.Config.{Settings}
use safe_shield.Auth.Security.{Supply, Library}
use safe_shield.Prelude.{
  List, ◌≤◌, arith, ◌≢◌, true, ◌==◌, ◌<◌, update_where, ◌∷◌, find_first, some, false, exists_in,
  is_empty, ◌≡◌, Text,
}
use safe_shield.Auth.Models.{
  begin, is_revoked, close_session, Request, clashes, AuthDb, User, RefreshToken,
}
use safe_shield.Auth.Routes.{revoke, set_revoked, by_hash, TokenResponse, new_token, issue_tokens}
use safe_shield.Prelude.Effects.{is_ok, Result}
use safe_shield.Auth.Kept.{clashes-revoke}
use safe_shield.Auth.Rotation.{refresh_live, after_refresh}
use safe_shield.Auth.Families.{live_count}

-- Two refreshes of one token at once. The handler reads the token and its user, and writes later;
-- nothing locks the row between the two, so the reads of both may stand before the writes of both.

module _ (s : Settings) (lib : Library) (agent : Text) (t : RefreshToken) (user : User) where
  -- `token.revoked_at = now` and all that follows it in `refresh`, up to the commit.
  unfoldable pub finish_refresh : Supply → AuthDb → Result TokenResponse × Request
  unfolding issue_tokens
  finish_refresh sup db = close_session (
      issue_tokens s lib sup user agent (some t.family_id)
        (record (begin db) { working = set_revoked t.id sup.now db }))

  abbrev Unclashed : Supply → AuthDb → Type 0
  Unclashed sup db =
      exists_in (clashes (new_token s lib sup user.id (some t.family_id) agent)) db.tokens ≡ false

  abbrev rotated : Supply → List RefreshToken → List RefreshToken
  rotated sup ts =
      new_token s lib sup user.id (some t.family_id) agent
      ∷ update_where (λ v. v.id == t.id) (revoke sup.now) ts

  finish_refresh_lem :
      (sup : Supply) (db : AuthDb)
      → Unclashed sup db
      → ((finish_refresh sup db).1.committed.tokens ≡ rotated sup db.tokens)
        × (is_ok (finish_refresh sup db).0 ≡ true)
  unfolding finish_refresh issue_tokens
  finish_refresh_lem sup db e =
      let same =
        clashes-revoke (new_token s lib sup user.id (some t.family_id) agent) sup.now
          (λ v. v.id == t.id) db.tokens in
      ground (arith, same)

  live_count-rotated :
      (first second : Supply) (ts : List RefreshToken)
      → first.token_id ≢ t.id
      → 2 ≤ live_count t.family_id (rotated second (rotated first ts))
  live_count-rotated first second ts apart = ground arith

  -- When two requests have both read a live, unexpired token of an active user before either
  -- writes, both return tokens, and the family then has two live tokens. A request that is alone
  -- does the same reads and writes, so each of the two is what `refresh` does.
  pub concurrent_refresh :
      (first second : Supply) (raw : Text) (db : AuthDb)
      → is_empty raw ≡ false
      → find_first (by_hash (lib.sha256 raw)) db.tokens ≡ some t
      → is_revoked t ≡ false
      → first.now < t.expires_at
      → second.now < t.expires_at
      → find_first (λ u. u.id == t.user_id) db.users ≡ some user
      → user.is_active ≡ true
      → Unclashed first db
      → Unclashed second (finish_refresh first db).1.committed
      → first.token_id ≢ t.id
      → let one = finish_refresh first db in
        let two = finish_refresh second one.1.committed in
        (after_refresh s lib first raw agent db ≡ one)
        × (after_refresh s lib second raw agent db ≡ finish_refresh second db)
        × (is_ok one.0 ≡ true)
        × (is_ok two.0 ≡ true)
        × (2 ≤ live_count t.family_id two.1.committed.tokens)
  unfolding finish_refresh
  concurrent_refresh first second raw db sent found live early_one early_two owner active free_one
        free_two apart =
      (
        refresh_live s lib first raw agent db t user sent found live early_one owner active,
        refresh_live s lib second raw agent db t user sent found live early_two owner active,
        (finish_refresh_lem first db free_one).1,
        (finish_refresh_lem second _ free_two).1,
        rw
            (
              (finish_refresh_lem second (finish_refresh first db).1.committed free_two).0,
              (finish_refresh_lem first db free_one).0,
            )
            (live_count-rotated first second db.tokens apart),
      )
