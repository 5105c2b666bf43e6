-- ===== src/ApiClient.antt =====
-- frontend/src/api/client.ts: the requests of the REST client, and what it makes of their answers.
-- `fetch` and `JSON.parse` are the browser's: an answer is what they give, and the code goes on from it.
pub mod Json
pub mod Answers
pub mod Requests
pub mod Urls
pub mod Trace
