-- ===== src/Tests/Federation.antt =====
-- Runs of the theorem on a query over the remote readers.
use promeproxy.Common.{
  string_eq, nat_eq, ℕ, String, ◌≡◌, inl, inr, none, [], ◌∷◌, map, if◌then◌else◌, ◌==◌, str_len,
  pos, get_or, lookup, delete, delete_all,
}
use promeproxy.Model.{SampleStream}
use promeproxy.Metric.Matcher.{equal}
use promeproxy.Remote.Read.{
  RemoteQuerier, without_matched, add_external_labels, remove_labels, read_querier,
}
use promeproxy.Fanin.Query.{query_groups}
use promeproxy.Fanin.Query.Laws.{group}
use promeproxy.Fanin.Remotes.{stream_iterator, Storages, read_range, ask_range}
use promeproxy.Fanin.Remotes.Laws.{query_groups-streams}

abbrev stream_of : String → ℕ → SampleStream ℕ
stream_of job v = record {
  metric = ("job", job) ∷ ("region", "eu") ∷ [];
  values = record { timestamp = pos 1; value = v } ∷ [];
}

-- The fingerprint is the number of letters of the job. Client 1 fails, and the others answer their index for two jobs.
abbrev storages : Storages ℕ ℕ ℕ ℕ ℕ ℕ String
storages = record {
  local_range = λ q from through matchers. ([], none);
  local_instant = λ q ts delta matchers. ([], none);
  new_equal =
      λ name value. record { type = equal; name = name; value = value; re = none; score = 0 };
  client_read = λ c from through matchers.
      if c.index == 1
      then inr "down"
      else inl (stream_of "a" c.index ∷ stream_of "bc" c.index ∷ []);
  fingerprint = λ m. str_len (get_or (lookup "job" m) "");
  zero_value = 0;
}

abbrev reader_of : ℕ → RemoteQuerier ℕ
reader_of n = record {
  client = record { index = n; url = "http://one"; client = 0; timeout = 5 };
  external_labels = ("region", "eu") ∷ [];
}

abbrev stripped : ℕ → SampleStream ℕ
stripped n = record {
  metric = ("job", "a") ∷ [];
  values = record { timestamp = pos 1; value = n } ∷ [];
}

query_groups-streams_example :
    lookup 1 (
      query_groups storages.fingerprint
        (ask_range storages (pos 0) (pos 9) [])
        []
        (map (λ q. inr q) (reader_of 2 ∷ reader_of 1 ∷ reader_of 0 ∷ [])))
    ≡ group none (map (stream_iterator {W = ℕ} 0) (stripped 2 ∷ stripped 0 ∷ []))
unfolding read_range lookup read_querier add_external_labels remove_labels without_matched
    delete_all delete
query_groups-streams_example =
    query_groups-streams storages 1 (pos 0) (pos 9) [] []
      (reader_of 2 ∷ reader_of 1 ∷ reader_of 0 ∷ [])
