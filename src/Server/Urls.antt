-- ===== src/Server/Urls.antt =====
-- server/pkg/server/server.go: the URLs of the repositories over histories of requests and ticks.
pub mod Repos
use mathlib.Core.List.{Nodup}
use dummy_cd.Base.{◌≡◌, sym, ap, ◌∙◌, subst, List}
use dummy_cd.Go.{OnOk, Result, ok, err, panic, blocked}
use dummy_cd.Libs.{Types}
use dummy_cd.Libs.Charts.{RestConfig}
use dummy_cd.Instance.{Libraries}
use dummy_cd.Instance.Remote.{Remote}
use dummy_cd.Instance.Repository.{RepositoryConfig, add_or_update_application, delete_application}
use dummy_cd.Instance.Repository.Keeps.{add_or_update_application-remote, delete_application-remote}
use dummy_cd.Instance.Handler.{HandlerState, run_repositories}
use dummy_cd.Server.Messages.{spec_of}
use dummy_cd.Server.Requests.{Event, run}
use dummy_cd.Server.Histories.{Keeps, run-keeps}
use Repos.{
  urls, get-some-url, urls-replace_first, append_url-Nodup, swap_remove-Nodup,
  run_repositories-urls,
}

module _ {T : Types} (libs : Libraries T) (cfg : RestConfig) where
  ran-Nodup :
      (repos : List (RepositoryConfig T)) (r : Result (List (RepositoryConfig T)))
      → OnOk (λ repos'. urls repos' ≡ urls repos) r
      → Nodup (urls repos)
      → OnOk (λ repos'. Nodup (urls repos')) r
  ran-Nodup repos (ok repos') e h = subst Nodup (sym e) h
  ran-Nodup repos (err x) e h = tt
  ran-Nodup repos panic e h = tt
  ran-Nodup repos blocked e h = tt

  urls_distinct : Keeps libs cfg (λ repos. Nodup (urls repos))
  urls_distinct = record {
    adds = λ new repos e fresh h. append_url-Nodup new repos e h;
    removes = λ repos i e h. swap_remove-Nodup repos i e h;
    updates = λ m r repos w e h.
        subst Nodup
          (sym (
            urls-replace_first m.url _ repos (
              ap (λ (x : Remote T). x.settings.url)
                (add_or_update_application-remote libs cfg (spec_of m r.remote)
                  (record { repository = r; world = w }))
              ∙ get-some-url m.url repos e)))
          h;
    deletes = λ m r repos w e h.
        subst Nodup
          (sym (
            urls-replace_first m.url _ repos (
              ap (λ (x : Remote T). x.settings.url)
                (delete_application-remote libs cfg m.name (record { repository = r; world = w }))
              ∙ get-some-url m.url repos e)))
          h;
    runs = λ repos w h.
        ran-Nodup repos (run_repositories libs repos w).0 (run_repositories-urls libs repos w) h;
  }

  -- After any history of requests and ticks, answered with errors or without, no two repositories
  -- of the handler have the same URL, if that was so at the start.
  pub run-urls_distinct :
      (es : List Event) (s : HandlerState T)
      → Nodup (urls s.handler.repos)
      → Nodup (urls (run libs cfg es s).handler.repos)
  run-urls_distinct es s h = run-keeps libs cfg urls_distinct es s h
