-- ===== src/Query.antt =====
-- What the calls of MySQL for one select give: mysql_query, mysql_use_result and mysql_fetch_row.
-- The query fails, its result cannot be fetched, or there is a row or none.
pub data Fetch (A : Type 0) : Type 0 where
  no_query no_result no_row : Fetch A
  row : A → Fetch A
