-- ===== src/Tests/EnrolTests.antt =====
-- An enrolment that the server approves.
use visiontak_client.Prelude.{codes}
use visiontak_client.Python.{Result, ok}
use visiontak_client.Json.{Json, str, obj, field, end}
use visiontak_client.Config.{Config, default_config}
use visiontak_client.Tests.Samples.{base}

abbrev fresh : Config
fresh = record default_config { server_url = base }

abbrev approving : Json → Result Json
approving body = ok (
    obj (
      field (codes "status") (str (codes "approved"))
        (field (codes "token") (str (codes "t")) end)))
